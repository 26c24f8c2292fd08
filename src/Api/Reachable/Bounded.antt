-- ===== src/Api/Reachable/Bounded.antt =====
-- `malloc_chained` in the arenas that the operations of `Step` lead to.
use hyperion_rust.Common.{ℕ, ◌*◌, ◌<◌, ◌≤◌, ◌≡◌}
use hyperion_rust.Simd.Lanes.{Features}
use hyperion_rust.Simd.AllBits.Laws.{HasVectors}
use hyperion_rust.Allocator.{Libc}
use hyperion_rust.Core.Buffer.{small_size}
use hyperion_rust.Core.Chunks.{Access, ArenaInner}
use hyperion_rust.Core.Allocate.Bounded.{get_new_pointer-Allocated}
use hyperion_rust.Core.Allocate.RoundTrip.{Allocated, chosen}
use hyperion_rust.Api.{malloc_chained}
use hyperion_rust.Api.Reachable.{Reachable, Reachable-AreValid}

module _ (l : Libc) (x : Access l) (dyn size steps : ℕ) (same : dyn ≡ steps * 256)
    (some_steps : 1 ≤ steps) (few_steps : steps ≤ 16) (small : size < small_size) where
  -- With AVX2 or SSE4.1, an increment of 256 to 4096 in steps of 256 and a size below 2^31 - 8192,
  -- in every arena that the operations named below lead to from one as it is made: if the superbin
  -- that serves the size has fewer than 16 metabins, an allocation, of any number of chunks, that
  -- is given 18 rounds or more does not run out of them. Unless it panics it returns a pointer; if
  -- that is extended, its entry has the size that was asked for, the room of the rounded size and
  -- no chain; its data are the address that the heap gave for the rounded size, in a world from
  -- which the returned one differs by that allocation and the writing of the entry only; and
  -- looking the pointer up, for any character, returns that address. The operations are malloc and
  -- malloc_chained, get_pointer, reallocate, free, register_chained_memory, get_chained_pointer,
  -- get_all_chained_pointer and teardown, each where it returned, with its rounds bounded by one
  -- number, and, for get_pointer, reallocate and free, with a pointer that has one of the 64
  -- superbins; any change of the memory between them; and initialize while every superbin has one
  -- metabin. An initialize of an arena with a superbin of more metabins is not among them.
  pub malloc_chained-Allocated :
      (c : Features) (vec : HasVectors c) (before fuel chain_count : ℕ) (a : ArenaInner l)
      → Reachable l x c dyn before a
      → 18 ≤ fuel
      → (chosen l x dyn size steps same some_steps few_steps small a).header.metabins_initialized
        < 16
      → Allocated l x dyn size steps same some_steps few_steps small
          (malloc_chained l x c dyn fuel a size chain_count)
  malloc_chained-Allocated c vec before fuel chain_count a r enough few =
      get_new_pointer-Allocated l x dyn size steps same some_steps few_steps small c fuel
        chain_count a enough (Reachable-AreValid l x c dyn before vec a r) few
