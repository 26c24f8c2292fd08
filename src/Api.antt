-- ===== src/Api.antt =====
-- memorymanager/api.rs: the operations of the memory manager. Each holds the lock of its arena from
-- its start to its end, so that an arena sees one operation at a time.
pub mod Startup
pub mod Chained
pub mod Reachable
pub mod Kept
pub mod Again
use hyperion_rust.Common.{
  ℕ, zero, suc, ◌+◌, ◌-◌, ◌*◌, ◌/◌, ◌%◌, ◌==◌, if◌then◌else◌, Bool, true, false, not, Option, none,
  some, List, [], ◌∷◌, get_or, set, ltb,
}
use hyperion_rust.Simd.Lanes.{Features}
use hyperion_rust.Allocator.{
  Libc, World, Run, done, panic, ◌>>=◌, AllocatedBy, heap, allocate_heap, auto_free_memory,
  free_mmap,
}
use hyperion_rust.Pointer.{HyperionPointer, CompressionState}
use hyperion_rust.Arena.{superblock_array_maxsize}
use hyperion_rust.Superbin.{Superbin, new_superbin}
use hyperion_rust.Superbin
use hyperion_rust.Core.{ExtendedHyperionPointer, alloc_size, has_data, set_flags, as_i16, roundup}
use hyperion_rust.Core.Chunks.{
  Access, ArenaInner, get_bin_ref, extended_address, chained_address, decompressed, get_chunk,
  read_extended,
}
use hyperion_rust.Core.Allocate.{
  Outcome, finished, panicked, no_fuel, and_then, lift, get_new_pointer,
}
use hyperion_rust.Core.Free.{free_from_pointer}
use hyperion_rust.Core.Reallocate.{reallocate_from_pointer}
use hyperion_rust.Teardown.{teardown_all_superbins}

abbrev pub arena_compression : ℕ
arena_compression = 16646144

-- What `get_all_chained_pointer` fills.
pub record SegmentChain : Type 0 where
  pub chars : List ℕ
  pub pointer : List ℕ

module _ (l : Libc) where
  abbrev pub initialize_superbin : ArenaInner l → ℕ → ArenaInner l
  initialize_superbin a index = record a {
    superbins =
        set a.superbins index
          (Superbin.initialize (get_or a.superbins index new_superbin) (index % 65536));
  }

  -- The inner loop of `initialize`, from an index on.
  pub initialize_superbins : ℕ → ℕ → ArenaInner l → ArenaInner l
  initialize_superbins zero index a = a
  initialize_superbins (suc n) index a =
      initialize_superbins n (index + 1) (initialize_superbin a index)

  unfoldable pub initialize_arena : ArenaInner l → ArenaInner l
  unfolding initialize_superbins
  initialize_arena a =
      initialize_superbins superblock_array_maxsize 0
        (record a { compression_cache = 0; compression_iterator = 1 })

  unfoldable pub initialize : List (ArenaInner l) → List (ArenaInner l)
  initialize [] = []
  initialize (a ∷ arenas) = initialize_arena a ∷ initialize arenas

module _ (l : Libc) (x : Access l) where
  -- One arena of `teardown`: the cache stays as it is, and whether it was unmapped is not looked at.
  unfoldable pub teardown_arena : ArenaInner l → Run (ArenaInner l)
  teardown_arena a = teardown_all_superbins l x a >>= λ a'. done (
      if not (a'.compression_cache == 0)
      then record a' { world = (free_mmap l a'.compression_cache arena_compression a'.world).1 }
      else a')

  -- The arenas share the world, which goes from one to the next.
  unfoldable pub teardown : List (ArenaInner l) → World l → Run (World l)
  teardown [] w = done w
  teardown (a ∷ arenas) w =
      teardown_arena (record a { world = w }) >>= λ a'. teardown arenas a'.world

  -- The search of `register_chained_memory` down from an address. It has no other end than a
  -- pointer with data; `none` is the end of the fuel.
  pub find_data : ℕ → ℕ → World l → Option ℕ
  find_data zero address w = none
  find_data (suc fuel) address w =
      let rest = find_data fuel (address - 16) w in
      if has_data (x.load address w.mem) then some address else rest

  -- The data of the pointer at an address are freed if there are any. Whether that succeeded is not
  -- looked at.
  abbrev pub free_data : ExtendedHyperionPointer → World l → Run (World l)
  free_data e w =
      if has_data e
      then (auto_free_memory l e.data_pointer (alloc_size e) e.alloced_by w >>= λ r. done r.1)
      else done w

  -- The segment takes the place of the data.
  abbrev pub register_at : ArenaInner l → ℕ → ℕ → ℕ → ℕ → Run (ArenaInner l)
  register_at a address segment size over =
      let e = x.load address a.world.mem in
      free_data e a.world >>= λ w.
      let e' = record e {
        data_pointer = segment;
        requested_size = size % 4294967296;
        overallocated = as_i16 over;
        alloced_by = heap;
      } in
      done (record a { world = record w { mem = x.store address e' w.mem } })

  unfoldable pub register_chained_memory :
      ℕ → ArenaInner l → HyperionPointer → ℕ → ℕ → ℕ → Bool → ℕ → Outcome (ArenaInner l)
  unfolding find_data
  register_chained_memory fuel a p character segment size inplace over =
      and_then (lift (get_bin_ref l a p)) (λ b.
        let chain_pointer = extended_address b p + character / 32 * 16 in
        elim (if inplace then some chain_pointer else find_data fuel chain_pointer a.world) [
          | none ↦ no_fuel
          | some address ↦ lift (register_at a address segment size over)
        ])

  unfoldable pub is_chained_pointer : ArenaInner l → HyperionPointer → Run Bool
  is_chained_pointer a p = get_bin_ref l a p >>= λ b.
      done (not ((x.load (extended_address b p) a.world.mem).chained_pointer_count == 0))

  -- The loop of `get_all_chained_pointer`, with `n` rounds left, the character and how many elements
  -- there are. It looks at the head in every round.
  pub collect : ℕ → ℕ → ℕ → ℕ → SegmentChain → ArenaInner l → Run (ArenaInner l × SegmentChain × ℕ)
  collect zero i head elements chain a = done (a, chain, elements)
  collect (suc n) i head elements chain a =
      let e = x.load head a.world.mem in
      let skipped = collect n (i + 32) head elements chain a in
      let r = read_extended l x a head in
      let filled = record chain {
        chars = set chain.chars elements (i % 256);
        pointer = set chain.pointer elements r.1;
      } in
      let taken = collect n (i + 32) head (elements + 1) filled r.0 in
      if has_data e then (decompressed l x e >>= λ _. taken) else skipped

  unfoldable pub get_all_chained_pointer :
      SegmentChain → ArenaInner l → HyperionPointer → Run (ArenaInner l × SegmentChain × ℕ)
  unfolding collect
  get_all_chained_pointer chain a p = get_bin_ref l a p >>= λ b.
      let head = extended_address b p in
      let e = x.load head a.world.mem in
      if ltb 0 e.chained_pointer_count
      then collect 8 0 head 0 chain a
      else done (
        a,
        record chain { chars = set chain.chars 0 0; pointer = set chain.pointer 0 e.data_pointer },
        1,
      )

module _ (l : Libc) (x : Access l) (dyn : ℕ) where
  -- A new entry of a chain: its offset stands where the length of the chain does.
  abbrev pub new_entry : ArenaInner l → ℕ → ℕ → ℕ → ArenaInner l
  new_entry a entry offset size =
      let target_size = roundup dyn size in
      let r = allocate_heap l target_size a.world in
      let e = record (x.load entry a.world.mem) { alloced_by = heap; data_pointer = r.0 } in
      let filled =
        set_flags e (size % 4294967296) (as_i16 (target_size - size)) 0 0
          CompressionState.uncompressed offset in
      record a { world = record (r.1) { mem = x.store entry filled r.1.mem } }

  -- `get_chained_pointer`: the arena and the address of the data.
  unfoldable pub get_chained_pointer :
      ArenaInner l → HyperionPointer → ℕ → Bool → ℕ → Run (ArenaInner l × ℕ)
  get_chained_pointer a p character init size = get_bin_ref l a p >>= λ b.
      let head = extended_address b p in
      let entry = head + character / 32 * 16 in
      let found : ArenaInner l × ℕ =
        if has_data (x.load entry a.world.mem)
        then (a, entry)
        else if init
        then (new_entry a entry (character / 32) size, entry)
        else (a, chained_address l x head character a.world) in
      (decompressed l x (x.load found.1 found.0.world.mem) >>= λ e.
      done (read_extended l x found.0 found.1))

  -- Its argument `might_increment` is read by the feature `migration` only.
  abbrev pub get_pointer : ArenaInner l → HyperionPointer → ℕ → ℕ → Run (ArenaInner l × ℕ)
  get_pointer a p might_increment needed_character = get_chunk l x a p needed_character

module _ (l : Libc) (x : Access l) (c : Features) (dyn fuel : ℕ) where
  abbrev pub reallocate :
      ArenaInner l → HyperionPointer → ℕ → ℕ → Outcome (ArenaInner l × HyperionPointer)
  reallocate a p size needed_character =
      reallocate_from_pointer l x c dyn fuel a p size needed_character

  abbrev pub malloc_chained : ArenaInner l → ℕ → ℕ → Outcome (ArenaInner l × HyperionPointer)
  malloc_chained a size chain_count = get_new_pointer l x c dyn fuel size chain_count a

  abbrev pub malloc : ArenaInner l → ℕ → Outcome (ArenaInner l × HyperionPointer)
  malloc a size = get_new_pointer l x c dyn fuel size 0 a

  abbrev pub free : ArenaInner l → HyperionPointer → Run (ArenaInner l)
  free a p = free_from_pointer l x c a p
