-- ===== src/Tests/Reachable.antt =====
-- An arena as it is made, and the uses of the theorems on what the operations lead to.
use hyperion_rust.Api.Startup.{initializes, next_arena, arena_mut, call_all, unstarted}
use hyperion_rust.Api.Startup.Laws.{started, call_all-unstarted}
use hyperion_rust.Api.Reachable.Persistent.{Usable, none_yet, and_one, get_bin_ref-Usable}
use hyperion_rust.Common.{[], ◌∷◌, ℕ, ◌<◌, ◌%◌, get_or, ◌≡◌, inl, refl, true, arith}
use hyperion_rust.Allocator.{done}
use hyperion_rust.Bin.{Bin}
use hyperion_rust.Metabin.{bin_of}
use hyperion_rust.Arena.{default_superbins}
use hyperion_rust.Core.Chunks.{ArenaInner, get_bin_ref}
use hyperion_rust.Core.Valid.{AreValid, one_each}
use hyperion_rust.Core.Allocate.{finished, get_new_pointer}
use hyperion_rust.Core.Allocate.Valid.{Kept, get_new_pointer-Kept}
use hyperion_rust.Core.Free.{free_from_pointer}
use hyperion_rust.Core.Free.Valid.{EachValid, free_from_pointer-EachValid}
use hyperion_rust.Api.{register_chained_memory}
use hyperion_rust.Api.Chained.{get_chained_pointer-register_chained_memory}
use hyperion_rust.Api.Reachable.{
  start, next, registers, default_superbins-AreValid, Reachable-AreValid,
}
use hyperion_rust.Superbin.{new_superbin, get_sblock_id}
use hyperion_rust.Pointer.{default_pointer, set_superbin_id}
use hyperion_rust.Arena.Laws.{default_superbins-IsValid}
use hyperion_rust.Core.Search.{allocate_bin}
use hyperion_rust.Core.Search.Ends.{Ends}
use hyperion_rust.Core.Search.Bounded.{allocate_bin-Bounded}
use hyperion_rust.Core.Allocate.Valid.{get_sblock_id-lt}
use hyperion_rust.Core.Allocate.RoundTrip.{Allocated}
use hyperion_rust.Api.{malloc_chained}
use hyperion_rust.Api.Reachable.Bounded.{malloc_chained-Allocated}
use hyperion_rust.Trie.{initialize_container}
use hyperion_rust.Trie.Initialized.{Returns, IsInitialized, initialize_container-Returns}
use hyperion_rust.Tests.{sse_only}
use hyperion_rust.Tests.Arenas.{
  increment, shelf_containers, shelf, shelf_access, new_world, chain, chunk,
}

abbrev made : ArenaInner shelf
made = record {
  compression_cache = 0;
  compression_iterator = 1;
  superbins = default_superbins;
  world = new_world;
}

get_new_pointer-Kept_example :
    Kept one_each shelf (get_new_pointer shelf shelf_access sse_only 4096 2 3000 0 made)
get_new_pointer-Kept_example =
    get_new_pointer-Kept one_each shelf shelf_access 4096 sse_only 2 3000 0 made
      default_superbins-AreValid

free_from_pointer-EachValid_example :
    EachValid one_each shelf shelf_access chunk
      (omega arith)
      (free_from_pointer shelf shelf_access sse_only made chunk)
free_from_pointer-EachValid_example =
    free_from_pointer-EachValid one_each shelf shelf_access chunk (omega arith) sse_only made refl
      default_superbins-AreValid

first_bin : (b : Bin) × (get_bin_ref shelf made chain ≡ done b)
first_bin =
    let first =
      (default_superbins-AreValid.each 0 (omega arith)).present 0
        (omega (arith, (default_superbins-AreValid.each 0 (omega arith)).one_metabin)) in
    (bin_of first.0 2, rw first.1 refl)

-- A segment registered for character 70.
registered :
    (a' : ArenaInner shelf) × (register_chained_memory shelf shelf_access 1 made chain 70 777 100
        true 0
      ≡ finished a')
registered =
    let r =
      get_chained_pointer-register_chained_memory shelf shelf_access 4096 made chain first_bin.0 70
        80 777 100 0 0 true first_bin.1 (omega arith) refl (omega arith) (inl refl) in
    (r.0, r.1)

Reachable-AreValid_example : AreValid one_each registered.0.superbins
Reachable-AreValid_example =
    Reachable-AreValid shelf shelf_access sse_only 4096 1 refl registered.0
      (next (start {a = made} refl) (registers chain 70 777 100 0 true registered.1))

-- Superbin 0 serves 3000 bytes, superbin 1 serves 32.
few_metabins :
    (i : ℕ) → i < 64 → (get_or default_superbins i new_superbin).header.metabins_initialized < 16
few_metabins i lt = rw ((default_superbins-IsValid i lt).2) (omega arith)

allocate_bin-Bounded_example : Ends shelf sse_only 0 (
    allocate_bin shelf sse_only 18 0 (record {
      superbin = get_or default_superbins 1 new_superbin;
      pointer = set_superbin_id default_pointer 1;
      world = new_world;
    }))
allocate_bin-Bounded_example =
    allocate_bin-Bounded shelf sse_only 0 18
      (record {
        superbin = get_or default_superbins 1 new_superbin;
        pointer = set_superbin_id default_pointer 1;
        world = new_world;
      })
      (omega arith) (default_superbins-AreValid.each 1 (omega arith)) (few_metabins 1 (omega arith))

malloc_chained-Allocated_example :
    Allocated shelf shelf_access 4096 3000 16 increment
      (omega arith)
      (omega arith)
      (omega arith)
      (malloc_chained shelf shelf_access sse_only 4096 18 made 3000 0)
malloc_chained-Allocated_example =
    malloc_chained-Allocated shelf shelf_access 4096 3000 16 increment (omega arith) (omega arith)
      (omega arith) sse_only refl 1 18 0 made (start {a = made} refl) (omega arith)
      (few_metabins (get_sblock_id (3000 % 4294967296)) (get_sblock_id-lt 3000 (omega arith)))

initialize_container-Returns_example :
    Returns
      (IsInitialized shelf shelf_access sse_only 4096 shelf_containers)
      (initialize_container shelf shelf_access shelf_containers sse_only 4096 18 made)
initialize_container-Returns_example =
    initialize_container-Returns shelf shelf_access sse_only 4096 shelf_containers 18 made
      (omega arith) default_superbins-AreValid
      (few_metabins (get_sblock_id (32 % 4294967296)) (get_sblock_id-lt 32 (omega arith)))

call_all-unstarted_example :
    (after : ℕ) × (call_all shelf new_world
        (initializes ∷ next_arena ∷ arena_mut 7 ∷ [])
        (unstarted shelf new_world)
      ≡ done (started shelf new_world after))
call_all-unstarted_example =
    call_all-unstarted shelf new_world initializes (next_arena ∷ arena_mut 7 ∷ [])

-- The chain's pointer after the registration.
get_bin_ref-Usable_example : Usable shelf shelf_access sse_only 4096 1 refl registered.0 chain
get_bin_ref-Usable_example =
    get_bin_ref-Usable shelf shelf_access sse_only 4096 1 refl made registered.0 chain first_bin.0
      (start {a = made} refl) (omega arith) first_bin.1
      (and_one none_yet (registers chain 70 777 100 0 true registered.1))
