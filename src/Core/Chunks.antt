-- ===== src/Core/Chunks.antt =====
-- core.rs over an arena: what a Hyperion pointer refers to, in a build without the features
-- `compression` and `migration`, which are off by default. The probe for compression does
-- nothing in such a build.
use hyperion_rust.Common.{
  ℕ, zero, suc, ◌+◌, ◌-◌, ◌*◌, ◌==◌, ◌≡◌, if◌then◌else◌, not, ltb, Option, none, some, List, [],
  ◌∷◌, get_or, set,
}
use hyperion_rust.Allocator.{Libc, World, Run, done, panic, ◌>>=◌}
use hyperion_rust.Pointer.{HyperionPointer, is_extended_pointer, compression_into_bits}
use hyperion_rust.Bin.{Bin}
use hyperion_rust.Metabin.{Metabin, bin_of, put_bin}
use hyperion_rust.PointerArray.{get}
use hyperion_rust.Superbin.{Superbin, new_superbin}
use hyperion_rust.Core.{ExtendedHyperionPointer, get_chained_pointer}

-- The extended pointers that lie in memory, 16 bytes each, by their address, and its 16-bit words.
pub record Access (l : Libc) : Type 0 where
  pub load : ℕ → l.Mem → ExtendedHyperionPointer
  pub store : ℕ → ExtendedHyperionPointer → l.Mem → l.Mem
  pub load_u16 : ℕ → l.Mem → ℕ
  pub store_u16 : ℕ → ℕ → l.Mem → l.Mem
  pub load-store : (a : ℕ) (e : ExtendedHyperionPointer) (m : l.Mem) → load a (store a e m) ≡ e

-- An arena with the world. `sliding_window` is left out: nothing reads or writes it.
pub record ArenaInner (l : Libc) : Type 0 where
  pub compression_cache : ℕ
  pub compression_iterator : ℕ
  pub superbins : List Superbin
  pub world : World l

abbrev pub unwrap {ℓ} : {A : Type ℓ} → Option A → Run A
unwrap none = panic
unwrap (some x) = done x

-- `get_extended_pointer_to_bin_ref`: the address of the chunk, `size_of` being 16.
abbrev pub extended_address : Bin → HyperionPointer → ℕ
extended_address b p = b.chunks + p.chunk_id * 16

abbrev pub mark_read : Bin → Bin
mark_read b = record b { header = record (b.header) { chance2nd_read = 0 } }

module _ (l : Libc) where
  abbrev pub get_superbin_ref : ArenaInner l → HyperionPointer → Superbin
  get_superbin_ref a p = get_or a.superbins p.superbin_id new_superbin

  abbrev pub put_superbin : ArenaInner l → HyperionPointer → Superbin → ArenaInner l
  put_superbin a p s = record a { superbins = set a.superbins p.superbin_id s }

  -- Panics if the superbin has no such metabin.
  abbrev pub get_metabin_ref : ArenaInner l → HyperionPointer → Run Metabin
  get_metabin_ref a p = unwrap (get (get_superbin_ref a p).metabins p.metabin_id)

  abbrev pub get_bin_ref : ArenaInner l → HyperionPointer → Run Bin
  get_bin_ref a p = get_metabin_ref a p >>= λ m. done (bin_of m p.bin_id)

  -- A metabin or a bin that was changed through a reference, back in its place.
  abbrev pub put_metabin : ArenaInner l → HyperionPointer → Metabin → ArenaInner l
  put_metabin a p m =
      let s = get_superbin_ref a p in
      put_superbin a p (record s { metabins = set s.metabins p.metabin_id (some m) })

  abbrev pub put_bin_ref : ArenaInner l → HyperionPointer → Metabin → Bin → ArenaInner l
  put_bin_ref a p m b = put_metabin a p (put_bin m p.bin_id b)

  -- `get_chunk_pointer` without the feature `compression`.
  unfoldable pub get_chunk_pointer : ArenaInner l → HyperionPointer → Run ℕ
  get_chunk_pointer a p = do
    b ← get_bin_ref a p
    done (b.chunks + p.chunk_id * (get_superbin_ref a p).header.size_of_bin)

  -- The same place in the bin's chunks.
  abbrev pub get_offset : ArenaInner l → HyperionPointer → Run ℕ
  get_offset a p =
      let offset = p.chunk_id * (get_superbin_ref a p).header.size_of_bin in
      get_bin_ref a p >>= λ b. done (b.chunks + offset)

module _ (l : Libc) (x : Access l) where
  -- The eight pointers of a chain from its head on.
  pub chain_from : ℕ → ℕ → World l → List ExtendedHyperionPointer
  chain_from zero a w = []
  chain_from (suc n) a w = x.load a w.mem ∷ chain_from n (a + 16) w

  -- The address of the chained pointer for a character: the entry found, or the one before the head.
  abbrev pub chained_address : ℕ → ℕ → World l → ℕ
  chained_address head c w = elim (get_chained_pointer (chain_from 8 head w) (x.load 0 w.mem) c) [
    | none ↦ head - 16
    | some o ↦ head + o * 16
  ]

  -- `decompress_extended` is `todo!()`, which panics.
  abbrev pub decompressed : ExtendedHyperionPointer → Run ExtendedHyperionPointer
  decompressed e = if ltb 1 (compression_into_bits e.compression_state) then panic else done e

  -- Marks the pointer at an address as read, and returns its data.
  abbrev pub read_extended : ArenaInner l → ℕ → ArenaInner l × ℕ
  read_extended a address =
      let e = record (x.load address a.world.mem) { chance2nd_read = 0 } in
      (
        record a { world = record (a.world) { mem = x.store address e a.world.mem } },
        e.data_pointer,
      )

  unfoldable pub get_chunk_pointer_from_extended :
      ArenaInner l → HyperionPointer → ℕ → Run (ArenaInner l × ℕ)
  get_chunk_pointer_from_extended a p needed_character = get_bin_ref l a p >>= λ b.
      let head = extended_address b p in
      let chained = chained_address head needed_character a.world in
      if not ((x.load head a.world.mem).chained_pointer_count == 0)
      then (decompressed (x.load chained a.world.mem) >>= λ e. done (read_extended a chained))
      else done (read_extended a head)

  -- `get_chunk`: the arena, in which the bin or the extended pointer counts as read, and the address.
  unfoldable pub get_chunk : ArenaInner l → HyperionPointer → ℕ → Run (ArenaInner l × ℕ)
  get_chunk a p needed_character =
      if is_extended_pointer p then get_chunk_pointer_from_extended a p needed_character else do
        data_address ← get_chunk_pointer l a p
        m ← get_metabin_ref l a p
        done (put_bin_ref l a p m (mark_read (bin_of m p.bin_id)), data_address)
