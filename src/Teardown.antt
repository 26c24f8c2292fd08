-- ===== src/Teardown.antt =====
-- The release of memory: `teardown` and `teardown_if_unused` of bin.rs, `teardown` of metabin.rs,
-- `teardown_bin` of superbin.rs, `teardown_superblock` and `teardown_all_superbins` of arena.rs.
use hyperion_rust.Common.{
  ℕ, zero, suc, ◌+◌, ◌*◌, ◌==◌, if◌then◌else◌, ◌&&◌, Bool, true, false, not, none, some, List, [],
  ◌∷◌,
}
use hyperion_rust.Simd.Lanes.{Features}
use hyperion_rust.Allocator.{
  Libc, World, Run, done, ◌>>=◌, assert, AllocatedBy, allocated_by_into_bits, auto_free_memory,
  free_mmap,
}
use hyperion_rust.Pointer.{is_deflate}
use hyperion_rust.Bin.{Bin, is_empty, is_fully_occupied, check_is_unused}
use hyperion_rust.PointerArray.{get}
use hyperion_rust.Superbin.{Superbin, has_cached_bin, get_datablock_size}
use hyperion_rust.Core.{alloc_size, has_data}
use hyperion_rust.Core.Chunks.{Access, ArenaInner}

-- BIN_ELEMENTS and BIN_ELEMENTS_DEFLATED.
abbrev pub bin_elements : ℕ
bin_elements = 4096

abbrev pub bin_elements_deflated : ℕ
bin_elements_deflated = 256

module _ (l : Libc) (x : Access l) where
  -- `assert!(auto_free_memory(..))`.
  abbrev pub free_or_panic : ℕ → ℕ → AllocatedBy → World l → Run (World l)
  free_or_panic address size by w =
      auto_free_memory l address size by w >>= λ r. (assert r.0 >>= λ _. done r.1)

  -- The loop over the extended pointers of a bin, from an address on.
  pub free_pointers : ℕ → ℕ → World l → Run (World l)
  free_pointers zero address w = done w
  free_pointers (suc n) address w =
      (if has_data (x.load address w.mem)
        then free_or_panic (x.load address w.mem).data_pointer (alloc_size (x.load address w.mem))
            (x.load address w.mem).alloced_by w
        else done w)
      >>= λ w'. free_pointers n (address + 16) w'

  -- `Bin::teardown`: the bin itself stays as it is. Extended pointers have 16 bytes.
  unfoldable pub teardown : Bin → ℕ → World l → Run (World l)
  unfolding free_pointers
  teardown b size w =
      if is_empty b
      then done w
      else if not (size == 16)
      then free_or_panic b.chunks
          (size
            * (if is_deflate b.header.compression_state
                then bin_elements_deflated
                else bin_elements))
          b.header.allocated_by w
      else (free_pointers bin_elements b.chunks w >>= λ w'.
          free_or_panic b.chunks (size * bin_elements) b.header.allocated_by w')

  unfoldable pub teardown_if_unused : Bin → ℕ → World l → Run (Bool × World l)
  teardown_if_unused b size w =
      if check_is_unused b then (teardown b size w >>= λ w'. done (true, w')) else done (false, w)

  -- `Metabin::teardown`, over the 256 bins.
  pub teardown_bins : List Bin → ℕ → World l → Run (World l)
  teardown_bins [] size w = done w
  teardown_bins (b ∷ bs) size w = teardown b size w >>= λ w'. teardown_bins bs size w'

  -- Whether the bin was torn down, the superbin, the bin and the world. The bin's memory goes to the
  -- cache if that is empty and the memory is mapped.
  unfoldable pub teardown_bin :
      Features → Superbin → Bin → World l → Run (Bool × Superbin × Bin × World l)
  teardown_bin c s b w =
      if is_fully_occupied c b
      then done (false, s, b, w)
      else if not (has_cached_bin s) && (allocated_by_into_bits b.header.allocated_by == 0)
      then done (true, record s { bin_cache = b.chunks }, record b { chunks = 0 }, w)
      else (teardown b (get_datablock_size s) w >>= λ w'. done (true, s, b, w'))

  -- The loop over the initialised metabins, from an index on.
  pub teardown_metabins : ℕ → ℕ → Superbin → World l → Run (World l)
  unfolding teardown_bins
  teardown_metabins zero i s w = done w
  teardown_metabins (suc n) i s w =
      (elim (get s.metabins i) [
        | none ↦ done w
        | some m ↦ teardown_bins m.bins s.header.size_of_bin w
      ])
      >>= λ w'. teardown_metabins n (i + 1) s w'

  -- `teardown_superblock`: whether the cache could be unmapped is not looked at.
  unfoldable pub teardown_superblock : Superbin → World l → Run (World l)
  unfolding teardown_metabins
  teardown_superblock s w = teardown_metabins s.header.metabins_initialized 0 s w >>= λ w'. done (
      if not (s.bin_cache == 0)
      then (free_mmap l s.bin_cache (s.header.size_of_bin * bin_elements) w').1
      else w')

  pub teardown_from : List Superbin → World l → Run (World l)
  teardown_from [] w = done w
  teardown_from (s ∷ ss) w = teardown_superblock s w >>= λ w'. teardown_from ss w'

  -- `teardown_all_superbins`.
  unfoldable pub teardown_all_superbins : ArenaInner l → Run (ArenaInner l)
  unfolding teardown_from
  teardown_all_superbins a =
      teardown_from a.superbins a.world >>= λ w. done (record a { world = w })
