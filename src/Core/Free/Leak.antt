-- ===== src/Core/Free/Leak.antt =====
-- What freeing a chunk does to the bin that it lies in.
use hyperion_rust.Common.{
  ℕ, zero, suc, ◌+◌, ◌*◌, ◌<◌, ◌≡◌, refl, ◌==◌, true, [], ◌∷◌, some, set, length, arith,
  get_or-set_self,
}
use hyperion_rust.Allocator.{Libc, done}
use hyperion_rust.Pointer.{HyperionPointer}
use hyperion_rust.Metabin.{Metabin, bin_of, set_bin_as_unused}
use hyperion_rust.PointerArray.{PointerArray, get}
use hyperion_rust.PointerArray.Laws.{get-set}
use hyperion_rust.Superbin.{new_superbin}
use hyperion_rust.Core.Chunks.{ArenaInner, get_superbin_ref, get_metabin_ref, put_metabin}

get-lt : (a : PointerArray) (i : ℕ) (m : Metabin) → get a i ≡ some m → i < length a
get-lt [] i m e = cc e
get-lt (o ∷ os) zero m e = omega arith
get-lt (o ∷ os) (suc i) m e = omega (arith, get-lt os i m e)

module _ (l : Libc) (a : ArenaInner l) (p : HyperionPointer) (m : Metabin)
    (there : get (get_superbin_ref l a p).metabins p.metabin_id ≡ some m)
    (superbin_there : p.superbin_id < length a.superbins) where
  -- The metabin that is put in a pointer's place is the one found there.
  pub get_metabin_ref-put_metabin :
      (m' : Metabin) → get_metabin_ref l (put_metabin l a p m') p ≡ done m'
  get_metabin_ref-put_metabin m' =
      rw
        (
          get_or-set_self a.superbins p.superbin_id
              (record (get_superbin_ref l a p) {
                metabins = set (get_superbin_ref l a p).metabins p.metabin_id (some m');
              })
              new_superbin superbin_there,
          get-set (get_superbin_ref l a p).metabins p.metabin_id p.metabin_id (some m')
              (get-lt (get_superbin_ref l a p).metabins p.metabin_id m there),
          same,
        )
        refl
    where
      same : (p.metabin_id == p.metabin_id) ≡ true
      same = ground arith

  -- The arena once the chunk is filled with zeros.
  abbrev pub zeroed : ArenaInner l
  zeroed = record a {
    world = record (a.world) {
      mem =
          l.memzero
            ((bin_of m p.bin_id).chunks + p.chunk_id * (get_superbin_ref l a p).header.size_of_bin)
            (get_superbin_ref l a p).header.size_of_bin a.world.mem;
    };
  }

  -- The arena in which the bin counts as one with a free chunk, too.
  abbrev pub marked : ArenaInner l
  marked = put_metabin l zeroed p (set_bin_as_unused m p.bin_id p.chunk_id)
