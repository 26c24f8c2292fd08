-- ===== src/Bin.antt =====
-- memorymanager/components/bin.rs: a bin of 4096 chunks with its usage mask, and the operations
-- on it. The mask is 128 words of 32 bits, 1 for a free chunk.
pub mod Laws
pub mod Allocate
pub mod Named
use hyperion_rust.Common.{
  ℕ, zero, suc, ◌+◌, ◌*◌, ◌/◌, ◌%◌, List, [], ◌∷◌, ◌==◌, if◌then◌else◌, Bool, true, false, not,
  Option, none, some, replicate, ltb,
}
use hyperion_rust.Simd.Lanes.{Features, bytes_of}
use hyperion_rust.Simd.FirstBit.{get_index_first_set_bit_4096_2}
use hyperion_rust.Simd.AllBits.{all_bits_set_4096}
use hyperion_rust.Simd.Count.{count_set_bits}
use hyperion_rust.Mask.{toggle}
use hyperion_rust.Allocator.{
  Libc, AllocatedBy, World, Run, done, panic, ◌>>=◌, auto_allocate_memory,
}
use hyperion_rust.Pointer.{HyperionPointer, set_chunk_id, CompressionState, is_deflate}

pub record BinHeader : Type 0 where
  pub compression_state : CompressionState
  pub allocated_by : AllocatedBy
  pub chance2nd_read : ℕ
  pub chance2nd_alloc : ℕ

-- `chunks` is the address in the `AtomicMemoryPointer`, 0 for null.
pub record Bin : Type 0 where
  pub header : BinHeader
  pub chunks : ℕ
  pub chunk_usage_mask : List ℕ

abbrev pub default_bin : Bin
default_bin = record {
  header = record {
    compression_state = CompressionState.uncompressed;
    allocated_by = AllocatedBy.mmap;
    chance2nd_read = 0;
    chance2nd_alloc = 0;
  };
  chunks = 0;
  chunk_usage_mask = replicate 128 0;
}

abbrev pub set_chance2nd_alloc : ℕ → Bin → Bin
set_chance2nd_alloc v b = record b { header = record (b.header) { chance2nd_alloc = v } }

abbrev pub set_flags : CompressionState → AllocatedBy → ℕ → ℕ → Bin → Bin
set_flags s by read alloc b = record b {
  header = record {
    compression_state = s;
    allocated_by = by;
    chance2nd_read = read;
    chance2nd_alloc = alloc;
  };
}

-- The new bin, and the word's index that the source returns.
pub toggle_chunk_usage : Bin → ℕ → Bin × ℕ
toggle_chunk_usage b chunk_id =
    (record b { chunk_usage_mask = toggle b.chunk_usage_mask chunk_id }, chunk_id / 32)

abbrev pub is_empty : Bin → Bool
is_empty b = b.chunks == 0

pub check_is_unused : Bin → Bool
check_is_unused b =
    if not (b.header.chance2nd_alloc == 1)
    then false
    else count_set_bits (bytes_of b.chunk_usage_mask) == 4096

-- `fill(0xFF)` writes 255 into every word.
unfoldable pub fill : ℕ → List ℕ → List ℕ
fill v [] = []
fill v (w ∷ ws) = v ∷ fill v ws

-- The loop over the first words of the mask: the index of the first that is 255.
find_full : List ℕ → ℕ → ℕ → Option ℕ
find_full ws zero i = none
find_full [] (suc n) i = none
find_full (w ∷ ws) (suc n) i = if w == 255 then some i else find_full ws n (i + 1)

clear_word : List ℕ → ℕ → List ℕ
clear_word [] i = []
clear_word (w ∷ ws) zero = 0 ∷ ws
clear_word (w ∷ ws) (suc i) = w ∷ clear_word ws i

-- `allocate_consecutive_chunks`: whether it succeeded, the bin and the pointer.
pub allocate_consecutive_chunks : Bin → HyperionPointer → Bool × Bin × HyperionPointer
unfolding find_full clear_word
allocate_consecutive_chunks b p = elim (find_full b.chunk_usage_mask 8 0) [
  | none ↦ (false, b, p)
  | some i ↦ (
    true,
    set_chance2nd_alloc 0 (record b { chunk_usage_mask = clear_word b.chunk_usage_mask i }),
    set_chunk_id p (i * 8),
  )
]

module _ (c : Features) where
  pub is_fully_occupied : Bin → Bool
  is_fully_occupied b = not (all_bits_set_4096 c (bytes_of b.chunk_usage_mask))

  -- The index as `u8`, and the new `PSEUDORAND`.
  pub new_chunk_allocation_space_available : Bin → ℕ → Option ℕ × ℕ
  new_chunk_allocation_space_available b pseudorand =
      let r = get_index_first_set_bit_4096_2 c (bytes_of b.chunk_usage_mask) pseudorand in
      (elim r.0 [ none ↦ none | some index ↦ some (index % 256) ], r.1)

  -- Whether it succeeded, the bin, the pointer and the new `PSEUDORAND`.
  pub allocate_chunk_unchained : Bin → HyperionPointer → ℕ → Bool × Bin × HyperionPointer × ℕ
  unfolding new_chunk_allocation_space_available toggle_chunk_usage
  allocate_chunk_unchained b p pseudorand =
      let r = new_chunk_allocation_space_available b pseudorand in
      elim r.0 [
        | none ↦ (false, b, p, r.1)
        | some candidate ↦
            let t = toggle_chunk_usage b candidate in
            (true, set_chance2nd_alloc 0 t.0, set_chunk_id p t.1, r.1)
      ]

-- The part of `Superbin` that `initialize` reads and writes.
pub record Cache : Type 0 where
  pub bin_cache : ℕ
  pub size_of_bin : ℕ

module _ (l : Libc) where
  -- The bin, the superbin's cache and the world.
  unfoldable pub initialize : Bin → Cache → World l → Run (Bin × Cache × World l)
  unfolding fill
  initialize b s w =
      let clean = record (set_flags CompressionState.uncompressed AllocatedBy.mmap 0 0 b) {
        chunks = 0;
        chunk_usage_mask = fill 255 b.chunk_usage_mask;
      } in
      if not (s.bin_cache == 0)
      then done (record clean { chunks = s.bin_cache }, record s { bin_cache = 0 }, w)
      else do
        (chunks, by, w') ← auto_allocate_memory l (s.size_of_bin * 4096) w
        done (
          record clean { header = record (clean.header) { allocated_by = by }; chunks = chunks },
          s,
          w',
        )
