-- ===== src/Trie/Lookup.antt =====
-- core.rs, `get_chunk`, when a chunk that is not extended is looked up again.
use hyperion_rust.Common.{
  ℕ, zero, suc, ◌+◌, ◌*◌, ◌<◌, ◌≡◌, refl, ap, ap₂, ◌∙◌, ◌==◌, true, false, List, [], ◌∷◌, some,
  get_or, set, length, arith, get_or-set_self,
}
use hyperion_rust.Allocator.{Libc, World, done}
use hyperion_rust.Pointer.{HyperionPointer, is_extended_pointer}
use hyperion_rust.Bin.{Bin, default_bin}
use hyperion_rust.Metabin.{Metabin, bin_of, put_bin}
use hyperion_rust.PointerArray.{PointerArray, get}
use hyperion_rust.PointerArray.Laws.{get-set}
use hyperion_rust.Superbin.{new_superbin}
use hyperion_rust.Core.Chunks.{
  Access, ArenaInner, get_superbin_ref, put_bin_ref, mark_read, get_chunk, get_chunk_pointer,
}

get-lt : (a : PointerArray) (i : ℕ) (m : Metabin) → get a i ≡ some m → i < length a
get-lt [] i m e = cc e
get-lt (o ∷ os) zero m e = omega arith
get-lt (o ∷ os) (suc i) m e = omega (arith, get-lt os i m e)

-- A bin that counts as read keeps its chunks, wherever it stands.
chunks-mark_read :
    (bins : List Bin) (i : ℕ)
    → (get_or (set bins i (mark_read (get_or bins i default_bin))) i default_bin).chunks
      ≡ (get_or bins i default_bin).chunks
chunks-mark_read [] i = refl
chunks-mark_read (b ∷ bins) zero = refl
chunks-mark_read (b ∷ bins) (suc i) = chunks-mark_read bins i

module _ (l : Libc) (x : Access l) (p : HyperionPointer)
    (plain : is_extended_pointer p ≡ false) where
  -- The arena in which the pointer's bin counts as read.
  abbrev pub read : ArenaInner l → Metabin → ArenaInner l
  read a m = put_bin_ref l a p m (mark_read (bin_of m p.bin_id))

  -- The address of the pointer's chunk.
  abbrev pub chunk_address : ArenaInner l → Metabin → ℕ
  chunk_address a m =
      (bin_of m p.bin_id).chunks + p.chunk_id * (get_superbin_ref l a p).header.size_of_bin

  pub get_chunk-plain :
      (a : ArenaInner l) (m : Metabin) (c : ℕ)
      → get (get_superbin_ref l a p).metabins p.metabin_id ≡ some m
      → get_chunk l x a p c ≡ done (read a m, chunk_address a m)
  unfolding get_chunk get_chunk_pointer
  get_chunk-plain a m c there = rw (plain, there) refl

  -- After a look-up, whatever happened to the memory since, another gives the same address.
  pub get_chunk-again :
      (a : ArenaInner l) (m : Metabin) (c : ℕ) (w : World l)
      → p.superbin_id < length a.superbins
      → get (get_superbin_ref l a p).metabins p.metabin_id ≡ some m
      → (a' : ArenaInner l) × (get_chunk l x (record (read a m) { world = w }) p c
          ≡ done (a', chunk_address a m))
  get_chunk-again a m c w few there =
      (read a' m', get_chunk-plain a' m' c found ∙ ap (λ n. done (read a' m', n)) same_address)
    where
      m' : Metabin
      m' = put_bin m p.bin_id (mark_read (bin_of m p.bin_id))

      a' : ArenaInner l
      a' = record (read a m) { world = w }

      superbin : get_superbin_ref l a' p ≡ record (get_superbin_ref l a p) {
        metabins = set (get_superbin_ref l a p).metabins p.metabin_id (some m');
      }
      superbin =
          get_or-set_self a.superbins p.superbin_id
            (record (get_superbin_ref l a p) {
              metabins = set (get_superbin_ref l a p).metabins p.metabin_id (some m');
            })
            new_superbin few

      here : (p.metabin_id == p.metabin_id) ≡ true
      here = ground arith

      found : get (get_superbin_ref l a' p).metabins p.metabin_id ≡ some m'
      found =
          rw
            (
              superbin,
              get-set (get_superbin_ref l a p).metabins p.metabin_id p.metabin_id (some m')
                  (get-lt (get_superbin_ref l a p).metabins p.metabin_id m there),
              here,
            )
            refl

      same_address : chunk_address a' m' ≡ chunk_address a m
      same_address =
          ap₂ (λ n k. n + p.chunk_id * k) (chunks-mark_read m.bins p.bin_id)
            (ap (λ s. s.header.size_of_bin) superbin)
