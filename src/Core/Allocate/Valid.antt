-- ===== src/Core/Allocate/Valid.antt =====
-- Allocation keeps an arena valid, and its pointer names a bin of it.
use hyperion_rust.Common.{ℕ, ◌%◌, ◌<◌, ◌≡◌, refl, sym, subst, set, get_or-set_self, if_both, arith}
use hyperion_rust.Simd.Lanes.{Features}
use hyperion_rust.Allocator.{Libc, done}
use hyperion_rust.Pointer.{HyperionPointer, default_pointer, set_superbin_id, is_extended_pointer}
use hyperion_rust.Bin.{Bin}
use hyperion_rust.Metabin.{Metabin, bin_of}
use hyperion_rust.Superbin.{new_superbin, get_sblock_id}
use hyperion_rust.Core.Search
use hyperion_rust.Core.Search.{SearchResult}
use hyperion_rust.Core.Search.Valid.{FindsValid, allocate_bin-FindsValid}
use hyperion_rust.Core.Chunks.{
  Access, ArenaInner, get_superbin_ref, put_superbin, get_metabin_ref, get_bin_ref,
}
use hyperion_rust.Core.Valid.{AreValid, set-AreValid}
use hyperion_rust.Core.Allocate.{
  Outcome, finished, panicked, no_fuel, and_then, lift, fill_pointer, after_search, get_new_pointer,
}

-- A size is served by one of the 64 superbins.
pub get_sblock_id-lt : (size : ℕ) → size < 4294967296 → get_sblock_id size < 64
unfolding get_sblock_id
get_sblock_id-lt size h = ground arith

module _ (floor : ℕ → ℕ) (l : Libc) where
  -- The superbins of what was returned are valid, and the pointer names one of them and a bin that
  -- is there.
  abbrev pub Kept : Outcome (ArenaInner l × HyperionPointer) → Type 0
  Kept (finished (a, p)) =
      AreValid floor a.superbins × (p.superbin_id < 64) × (b : Bin) × (get_bin_ref l a p ≡ done b)
  Kept panicked = Unit
  Kept no_fuel = Unit

module _ (floor : ℕ → ℕ) (l : Libc) (x : Access l) (dyn : ℕ) where
  fill_pointer_superbins :
      (size : ℕ) (a : ArenaInner l) (p : HyperionPointer) (m : Metabin)
      → (fill_pointer l x dyn size a p m).superbins ≡ a.superbins
  unfolding fill_pointer
  fill_pointer_superbins size a p m =
      if_both {A = ArenaInner l} (λ a'. a'.superbins ≡ a.superbins) (is_extended_pointer p) refl
        refl

  after_search-Kept :
      (size : ℕ) (a : ArenaInner l) (p0 : HyperionPointer) (r : SearchResult l)
      → AreValid floor a.superbins
      → p0.superbin_id < 64
      → FindsValid (floor p0.superbin_id) l p0.superbin_id r
      → Kept floor l (after_search l x dyn size a p0 r)
  after_search-Kept size a p0 Search.panicked v few h = tt
  after_search-Kept size a p0 Search.no_fuel v few h = tt
  after_search-Kept size a p0 (Search.found s) v few (valid, same, below) =
      rw (there, and_then, lift)
        (
          subst (AreValid floor) (sym superbins_kept)
              (set-AreValid a.superbins p0.superbin_id s.superbin v valid),
          omega (arith, same),
          bin_of m s.pointer.bin_id,
          rw
              (
                superbins_kept,
                same,
                get_or-set_self a.superbins p0.superbin_id s.superbin new_superbin
                    (omega (arith, v.size)),
                (valid.present s.pointer.metabin_id below).1,
              )
              refl,
        )
    where
      a' : ArenaInner l
      a' = record (put_superbin l a p0 s.superbin) { world = s.world }

      m : Metabin
      m = (valid.present s.pointer.metabin_id below).0

      there : get_metabin_ref l a' s.pointer ≡ done m
      there =
          rw
            (
              same,
              get_or-set_self a.superbins p0.superbin_id s.superbin new_superbin
                  (omega (arith, v.size)),
              (valid.present s.pointer.metabin_id below).1,
            )
            refl

      superbins_kept :
          (fill_pointer l x dyn size a' s.pointer m).superbins
          ≡ set a.superbins p0.superbin_id s.superbin
      superbins_kept = fill_pointer_superbins size a' s.pointer m

  -- An allocation of any size, for one chunk or for eight, in an arena whose 64 superbins are valid
  -- and have at least the numbers of metabins that `floor` gives, with any number of rounds: if it
  -- returns, all superbins are valid again and have as many at least, and the pointer names one of
  -- them, and a metabin and a bin that are there.
  pub get_new_pointer-Kept :
      (c : Features) (fuel size chained_counter : ℕ) (a : ArenaInner l)
      → AreValid floor a.superbins
      → Kept floor l (get_new_pointer l x c dyn fuel size chained_counter a)
  unfolding get_new_pointer
  get_new_pointer-Kept c fuel size chained_counter a v =
      after_search-Kept size a p0 (Search.allocate_bin l c fuel chained_counter s) v few (
        allocate_bin-FindsValid (floor p0.superbin_id) l c chained_counter fuel s
          (v.each p0.superbin_id few))
    where
      p0 : HyperionPointer
      p0 = set_superbin_id default_pointer (get_sblock_id (size % 4294967296))

      few : p0.superbin_id < 64
      few = get_sblock_id-lt (size % 4294967296) (omega arith)

      s : Search.Search l
      s = record { superbin = get_superbin_ref l a p0; pointer = p0; world = a.world }
