-- ===== src/Tests/Bins.antt =====
-- Uses of the theorems on bins, pointer arrays, superbins and arenas.
use hyperion_rust.Common.{
  ℕ, zero, suc, ◌+◌, ◌*◌, ◌≤◌, ◌<◌, ◌≡◌, ◌≢◌, ◌↔◌, ◌⊎◌, refl, List, ◌∷◌, true, false, arith,
  replicate, get_or, set, inl, inr,
}
use hyperion_rust.Common.Bits.{bit_at}
use hyperion_rust.Common.Lists.{All-replicate}
use hyperion_rust.Mask.{IsWord, free_at}
use hyperion_rust.Pointer.{default_pointer, set_chunk_id}
use hyperion_rust.Bin.{allocate_chunk_unchained, allocate_consecutive_chunks, is_fully_occupied}
use hyperion_rust.Bin.Laws.{IsValid, AllFree, is_fully_occupied_iff}
use hyperion_rust.Bin.Allocate.{
  Unchained, allocate_chunk_unchained_lem, allocate_consecutive_chunks_lem,
}
use hyperion_rust.Metabin.{Metabin, default_metabin}
use hyperion_rust.Superbin.{
  Superbin, new_superbin, initialize, get_sblock_id, get_datablock_size,
  inject_metabin_into_metaring, self_update_metaring, delete_unused_metabins,
}
use hyperion_rust.Superbin.Sizes.{get_sblock_id-get_datablock_size}
use hyperion_rust.Superbin.Inject.{
  IsRing, Ascending, Injected, inject_metabin_into_metaring-Injected,
}
use hyperion_rust.Superbin.Valid
use hyperion_rust.Superbin.Valid.{initialize-IsValid, delete_unused_metabins-eq}
use hyperion_rust.Superbin.Update.{Updated, self_update_metaring_lem}
use hyperion_rust.Tests.{sse_only, one_free}

one_free-IsValid : IsValid one_free
one_free-IsValid = record {
  size = refl;
  words = (omega arith, All-replicate IsWord 127 0 (omega arith));
}

allocate_chunk_unchained_lem_example :
    Unchained sse_only one_free default_pointer 0
      (allocate_chunk_unchained sse_only one_free default_pointer 0)
allocate_chunk_unchained_lem_example =
    allocate_chunk_unchained_lem sse_only one_free default_pointer 0 one_free-IsValid

one_free_succeeds : (allocate_chunk_unchained sse_only one_free default_pointer 0).0 ≡ true
one_free_succeeds =
    elim (allocate_chunk_unchained_lem sse_only one_free default_pointer 0 one_free-IsValid) [
      | inl failed ↦ absurd (free_there (failed.1 3))
      | inr found ↦ found.1
    ]
  where
    free_there : free_at one_free.chunk_usage_mask 3 ≢ 0
    free_there = unfold bit_at in omega arith

allocate_consecutive_chunks_lem_example :
    ((allocate_consecutive_chunks one_free default_pointer ≡ (false, one_free, default_pointer))
      × ((k : ℕ) → k < 8 → get_or one_free.chunk_usage_mask k 0 ≢ 255))
    ⊎ ((k : ℕ) × (k < 8)
        × (get_or one_free.chunk_usage_mask k 0 ≡ 255)
        × ((j : ℕ) → j < k → get_or one_free.chunk_usage_mask j 0 ≢ 255)
        × ((allocate_consecutive_chunks one_free default_pointer).0 ≡ true)
        × ((allocate_consecutive_chunks one_free default_pointer).1.chunk_usage_mask
            ≡ set one_free.chunk_usage_mask k 0)
        × ((allocate_consecutive_chunks one_free default_pointer).1.header.chance2nd_alloc ≡ 0)
        × ((allocate_consecutive_chunks one_free default_pointer).2
            ≡ set_chunk_id default_pointer (8 * k)))
allocate_consecutive_chunks_lem_example =
    allocate_consecutive_chunks_lem one_free default_pointer one_free-IsValid

is_fully_occupied_iff_example :
    (is_fully_occupied sse_only one_free ≡ false) ↔ AllFree one_free.chunk_usage_mask
is_fully_occupied_iff_example = is_fully_occupied_iff one_free one_free-IsValid sse_only refl

-- Superbin 4, new.
abbrev fourth : Superbin
fourth = initialize new_superbin 4

self_update_metaring_lem_example :
    Valid.IsValid 1 (self_update_metaring fourth) × Updated fourth (self_update_metaring fourth)
self_update_metaring_lem_example = self_update_metaring_lem fourth (initialize-IsValid 4)

delete_unused_metabins-eq_example : delete_unused_metabins sse_only fourth ≡ fourth
delete_unused_metabins-eq_example = delete_unused_metabins-eq sse_only fourth (initialize-IsValid 4)

-- A request of 100 bytes.
abbrev for_100 : Superbin
for_100 = record new_superbin { header = record (new_superbin.header) { superbin_id = 4 } }

get_sblock_id-get_datablock_size_example :
    ((1 ≤ 100)
      × (100 ≤ 2016)
      × (1 ≤ get_sblock_id 100)
      × (get_sblock_id 100 ≤ 63)
      × (100 ≤ get_datablock_size for_100)
      × (get_datablock_size for_100 < 100 + 32))
    ⊎ (((◌≡◌ {A = ℕ} 100 0) ⊎ (2016 < 100))
        × (get_sblock_id 100 ≡ 0)
        × (get_datablock_size for_100 ≡ 16))
get_sblock_id-get_datablock_size_example =
    get_sblock_id-get_datablock_size 100 for_100 (omega arith) (unfold get_sblock_id in refl)

-- A ring without gaps, and the metabin 6 to put back into it.
abbrev ring : List ℕ
ring = 2 ∷ replicate 15 9

ring-IsRing : IsRing ring
ring-IsRing = record {
  size = refl;
  ascending = (All-replicate (λ y. 2 ≤ y) 15 9 (omega arith), Ascending-replicate 15);
  ids = (omega arith, All-replicate (λ x. x < 16384) 15 9 (omega arith));
}
  where
    Ascending-replicate : (n : ℕ) → Ascending (replicate n 9)
    Ascending-replicate zero = tt
    Ascending-replicate (suc n) =
        (All-replicate (λ y. 9 ≤ y) n 9 (omega arith), Ascending-replicate n)

abbrev ringed : Superbin
ringed = record new_superbin { metabin_ring = ring }

abbrev sixth : Metabin
sixth = record default_metabin { id = 6 }

inject_metabin_into_metaring-Injected_example :
    Injected 6 ring (inject_metabin_into_metaring sse_only ringed sixth).metabin_ring
inject_metabin_into_metaring-Injected_example =
    inject_metabin_into_metaring-Injected sse_only ringed sixth refl ring-IsRing (omega arith)

-- One metabin, and the iterator past it.
abbrev compressed : Superbin
compressed = record new_superbin {
  header = record (new_superbin.header) {
    metabins_initialized = 1;
    metabins_compression_iterator_id = 1;
  };
}
