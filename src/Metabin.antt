-- ===== src/Metabin.antt =====
-- memorymanager/components/metabin.rs: 256 bins with a usage mask of 8 words, 1 for a bin that may
-- have a free chunk, and the search for a bin that has.
pub mod Allocate
pub mod Outcome
pub mod Named
pub mod Masked
pub mod Fresh
use hyperion_rust.Common.{
  ℕ, zero, suc, ◌+◌, ◌*◌, ◌/◌, ◌%◌, ◌^◌, List, [], ◌∷◌, ◌==◌, if◌then◌else◌, Bool, true, false, not,
  Option, none, some, replicate, set, get_or, bit_or, bit_xor,
}
use hyperion_rust.Simd.Lanes.{Features, bytes_of}
use hyperion_rust.Simd.FirstBit.{get_index_first_set_bit_256_2}
use hyperion_rust.Mask.{toggle}
use hyperion_rust.Allocator.{Libc, World}
use hyperion_rust.Allocator
use hyperion_rust.Pointer.{HyperionPointer, set_bin_id, is_deflate}
use hyperion_rust.Bin.{
  Bin, default_bin, is_empty, fill, Cache, allocate_chunk_unchained, allocate_consecutive_chunks,
}
use hyperion_rust.Bin

pub record Metabin : Type 0 where
  pub free_chunks : ℕ
  pub bin_compression_rr : ℕ
  pub id : ℕ
  pub bin_usage_mask : List ℕ
  pub bins : List Bin

abbrev pub default_metabin : Metabin
default_metabin = record {
  free_chunks = 0;
  bin_compression_rr = 0;
  id = 0;
  bin_usage_mask = replicate 8 0;
  bins = replicate 256 default_bin;
}

unfoldable pub initialize : Metabin → ℕ → Metabin
initialize m id = record m {
  id = id;
  free_chunks = 255;
  bin_usage_mask = fill 255 m.bin_usage_mask;
}

-- The bit is that of the chunk's id, in the word of the bin's id.
unfoldable pub set_bin_as_unused : Metabin → ℕ → ℕ → Metabin
set_bin_as_unused m bin_id chunk_id = record m {
  bin_usage_mask =
      set m.bin_usage_mask (bin_id / 32)
        (bit_or (get_or m.bin_usage_mask (bin_id / 32) 0) (2 ^ (chunk_id % 32)));
}

-- The metabin, with the word's index and the bit that the source returns.
pub lock_bin : Metabin → HyperionPointer → Metabin × ℕ × ℕ
lock_bin m p = (
  record m { bin_usage_mask = toggle m.bin_usage_mask p.bin_id },
  p.bin_id / 32,
  2 ^ (p.bin_id % 32),
)

-- `self.bins[i]`, for `i` below 256.
abbrev pub bin_of : Metabin → ℕ → Bin
bin_of m i = get_or m.bins i default_bin

abbrev pub put_bin : Metabin → ℕ → Bin → Metabin
put_bin m i b = record m { bins = set m.bins i b }

-- `self.bin_usage_mask[index] ^= bit`.
pub flip_word : Metabin → ℕ → ℕ → Metabin
flip_word m index bit = record m {
  bin_usage_mask = set m.bin_usage_mask index (bit_xor (get_or m.bin_usage_mask index 0) bit);
}

module _ (c : Features) where
  pub new_bin_allocation_space_available : Metabin → Option ℕ
  new_bin_allocation_space_available m =
      elim (get_index_first_set_bit_256_2 c (some (bytes_of m.bin_usage_mask))) [
        | none ↦ none
        | some index ↦ some (index % 256)
      ]

module _ (l : Libc) where
  -- What an allocation works on: the metabin, the pointer, the superbin's cache and the world.
  pub record State : Type 0 where
    pub metabin : Metabin
    pub pointer : HyperionPointer
    pub cache : Cache
    pub world : World l

  -- One round of `allocate_bin`: no bin left, a chunk allocated, or the candidate locked and the
  -- search to go on, after which the word is flipped back if there is one.
  pub data Round : Type 0 where
    exhausted : Round
    allocated : State → Round
    locked : State → Option (ℕ × ℕ) → Round
    panicked : Round

  -- The result of `allocate_bin`. `no_fuel` is that of a search that was given too few rounds.
  pub data Result : Type 0 where
    returned : Bool → State → Result
    panicked no_fuel : Result

  lock : Bool → State → Round
  unfolding lock_bin
  lock unlock s =
      let r = lock_bin s.metabin s.pointer in
      locked (record s { metabin = r.0 }) (if unlock then some (r.1, r.2) else none)

  -- From the candidate's bin on, which has been initialised.
  unfoldable pub use_bin : Features → ℕ → State → Bin → Round
  unfolding lock
  use_bin c chain_count s b =
      let i = s.pointer.bin_id in
      let kept = record s { metabin = put_bin s.metabin i b } in
      let one = allocate_chunk_unchained c b s.pointer s.world.pseudorand in
      let eight = allocate_consecutive_chunks b s.pointer in
      let moved = record (s.world) { pseudorand = one.3 } in
      if not (is_deflate b.header.compression_state)
      then if chain_count == 0
        then if one.0
          then allocated
              (record s { metabin = put_bin s.metabin i one.1; pointer = one.2; world = moved })
          else lock false (record kept { world = moved })
        else if eight.0
        then allocated (record s { metabin = put_bin s.metabin i eight.1; pointer = eight.2 })
        else lock true kept
      else lock false kept

  -- The candidate goes into the pointer, and its bin is initialised if it has no chunks yet.
  unfoldable pub open_bin : Features → ℕ → State → ℕ → Round
  open_bin c chain_count s candidate =
      let s' = record s { pointer = set_bin_id s.pointer candidate } in
      let b = bin_of s.metabin candidate in
      elim (if is_empty b
        then Bin.initialize l b s.cache s.world
        else Allocator.done (b, s.cache, s.world)) [
          | Allocator.panic ↦ panicked
          | Allocator.done (b', cache, world) ↦
              use_bin c chain_count (record s' { cache = cache; world = world }) b'
        ]

  unfoldable pub round : Features → ℕ → State → Round
  unfolding open_bin
  round c chain_count s = elim (new_bin_allocation_space_available c s.metabin) [
    | none ↦ exhausted
    | some candidate ↦ open_bin c chain_count s candidate
  ]

  -- After the recursive call the word is flipped back.
  pub unlock : Option (ℕ × ℕ) → Result → Result
  unfolding flip_word
  unlock none r = r
  unlock (some (index, bit)) (returned b s) =
      returned b (record s { metabin = flip_word s.metabin index bit })
  unlock (some (index, bit)) panicked = panicked
  unlock (some (index, bit)) no_fuel = no_fuel

  pub allocate_bin : Features → ℕ → ℕ → State → Result
  unfolding unlock
  allocate_bin c zero chain_count s = no_fuel
  allocate_bin c (suc fuel) chain_count s = elim (round c chain_count s) [
    | exhausted ↦ returned false s
    | allocated s' ↦ returned true s'
    | locked s' back ↦ unlock back (allocate_bin c fuel chain_count s')
    | panicked ↦ panicked
  ]
