-- ===== src/Core/Allocate/Bounded.antt =====
-- core.rs, `get_new_pointer`, in a valid arena.
use hyperion_rust.Common.{ℕ, ◌*◌, ◌%◌, ◌<◌, ◌≤◌, ◌≡◌, arith}
use hyperion_rust.Simd.Lanes.{Features}
use hyperion_rust.Allocator.{Libc}
use hyperion_rust.Pointer.{HyperionPointer, default_pointer, set_superbin_id}
use hyperion_rust.Superbin.{get_sblock_id}
use hyperion_rust.Core.Search
use hyperion_rust.Core.Search.Bounded.{allocate_bin-Bounded}
use hyperion_rust.Core.Buffer.{small_size}
use hyperion_rust.Core.Chunks.{Access, ArenaInner}
use hyperion_rust.Core.Valid.{AreValid, one_each}
use hyperion_rust.Core.Allocate.{get_new_pointer}
use hyperion_rust.Core.Allocate.Valid.{get_sblock_id-lt}
use hyperion_rust.Core.Allocate.RoundTrip.{Allocated, chosen, after_search-Allocated}

module _ (l : Libc) (x : Access l) (dyn size steps : ℕ) (same : dyn ≡ steps * 256)
    (some_steps : 1 ≤ steps) (few_steps : steps ≤ 16) (small : size < small_size) where
  pub get_new_pointer-Allocated :
      (c : Features) (fuel chained_counter : ℕ) (a : ArenaInner l)
      → 18 ≤ fuel
      → AreValid one_each a.superbins
      → (chosen l x dyn size steps same some_steps few_steps small a).header.metabins_initialized
        < 16
      → Allocated l x dyn size steps same some_steps few_steps small
          (get_new_pointer l x c dyn fuel size chained_counter a)
  unfolding get_new_pointer
  get_new_pointer-Allocated c fuel chained_counter a enough v few =
      after_search-Allocated l x dyn size steps same some_steps few_steps small c chained_counter a
        p0 (Search.allocate_bin l c fuel chained_counter s)
        (allocate_bin-Bounded l c chained_counter fuel s enough
          (v.each p0.superbin_id (get_sblock_id-lt (size % 4294967296) (omega arith))) few)
    where
      p0 : HyperionPointer
      p0 = set_superbin_id default_pointer (get_sblock_id (size % 4294967296))

      s : Search.Search l
      s = record {
        superbin = chosen l x dyn size steps same some_steps few_steps small a;
        pointer = p0;
        world = a.world;
      }
