-- ===== src/Tests/Metabins.antt =====
-- Uses of the theorems on metabins and on extended pointers.
use hyperion_rust.Common.{ℕ, ◌/◌, ◌≤◌, ◌<◌, ◌≡◌, ◌≢◌, refl, List, [], ◌∷◌, arith, replicate}
use hyperion_rust.Common.Bits.{count_ones}
use hyperion_rust.Common.Lists.{All-replicate}
use hyperion_rust.Mask.{IsWord, free_count}
use hyperion_rust.Pointer.{default_pointer, CompressionState}
use hyperion_rust.Allocator.{
  done, AllocatedBy, World, auto_reallocate_memory, auto_free_memory, free_heap,
}
use hyperion_rust.Metabin.{Metabin, default_metabin, State, allocate_bin, no_fuel}
use hyperion_rust.Metabin.Allocate.{IsMask, allocate_bin-ends}
use hyperion_rust.Metabin.Outcome.{Outcome, allocate_bin-Outcome}
use hyperion_rust.Core.{ExtendedHyperionPointer, roundup, free_extended, get_chained_pointer}
use hyperion_rust.Core.Extended.{IsLast, get_chained_pointer_lem, free_extended_twice}
use hyperion_rust.Tests.{sse_only, bump, fresh}

-- Bin 3 is the only one that may have a free chunk.
abbrev one_bin : List ℕ
one_bin = 8 ∷ replicate 7 0

abbrev metabin : Metabin
metabin = record default_metabin { bin_usage_mask = one_bin }

one_bin-IsMask : IsMask one_bin
one_bin-IsMask = record {
  size = refl;
  words = (omega arith, All-replicate IsWord 7 0 (omega arith));
}

one_bin_count : free_count one_bin < 2
unfolding free_count count_ones
one_bin_count = omega arith

abbrev state : State bump
state = record {
  metabin = metabin;
  pointer = default_pointer;
  cache = record { bin_cache = 0; size_of_bin = 32 };
  world = fresh;
}

allocate_bin-ends_example : allocate_bin bump sse_only 2 0 state ≢ no_fuel
allocate_bin-ends_example = allocate_bin-ends bump sse_only 0 2 state one_bin-IsMask one_bin_count

allocate_bin-Outcome_example : Outcome bump 0 one_bin (allocate_bin bump sse_only 2 0 state)
allocate_bin-Outcome_example = allocate_bin-Outcome bump sse_only 0 2 state one_bin-IsMask

-- 3000 bytes of 3072 are used.
abbrev extended : ExtendedHyperionPointer
extended = record {
  alloced_by = AllocatedBy.heap;
  compression_state = CompressionState.uncompressed;
  chance2nd_realloc = 0;
  chained_pointer_count = 0;
  chance2nd_read = 0;
  data_pointer = 16;
  requested_size = 3000;
  overallocated = 72;
}

-- The world after a new allocation of 5120 bytes.
abbrev after_5120 : World bump
after_5120 = record fresh { mem = 5136 }

allocation_5120 :
    auto_reallocate_memory bump 16 3072 (roundup 4096 5000) AllocatedBy.heap fresh
    ≡ done (16, AllocatedBy.heap, after_5120)
unfolding auto_reallocate_memory auto_free_memory free_heap roundup
allocation_5120 = refl

free_extended_twice_example :
    free_extended bump extended fresh ≡ done (record extended { data_pointer = 0 }, fresh)
free_extended_twice_example = free_extended_twice bump extended fresh (omega arith) refl

-- Two pointers with data.
abbrev chain : List ExtendedHyperionPointer
chain = extended ∷ extended ∷ []

abbrev empty : ExtendedHyperionPointer
empty = record extended { data_pointer = 0 }

get_chained_pointer_lem_example :
    IsLast chain empty (200 / 32) (get_chained_pointer chain empty 200) × (200 / 32 ≤ 7)
get_chained_pointer_lem_example = get_chained_pointer_lem chain empty 200 (omega arith)
