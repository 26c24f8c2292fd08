-- ===== src/Metabin/Masked.antt =====
-- The operations of a metabin keep its usage mask an array of 8 words.
use hyperion_rust.Common.{
  ℕ, zero, suc, ◌/◌, ◌%◌, ◌^◌, ◌<◌, ◌≡◌, refl, sym, subst, ◌∙◌, List, true, false, Option, none,
  some, set, get_or, length-set, All-set, All-get_or, arith, if_both, not, ◌==◌, if◌then◌else◌,
}
use hyperion_rust.Common.Bits.{bit_xor-pow-lt}
use hyperion_rust.Common.Lists.{All-replicate}
use hyperion_rust.Common.Or.{bit_or-lt, pow-lt}
use hyperion_rust.Simd.Lanes.{Features}
use hyperion_rust.Mask.{IsWord}
use hyperion_rust.Allocator.{Libc, World}
use hyperion_rust.Allocator
use hyperion_rust.Pointer.{set_bin_id, is_deflate}
use hyperion_rust.Bin.{
  Bin, Cache, fill, is_empty, allocate_chunk_unchained, allocate_consecutive_chunks,
}
use hyperion_rust.Bin
use hyperion_rust.Metabin.Allocate.{IsMask, mask_of, Lowers, round-Lowers}
use hyperion_rust.Metabin.{
  Metabin, State, Round, exhausted, allocated, locked, Result, returned, no_fuel, use_bin, open_bin,
  round, unlock, allocate_bin, bin_of, new_bin_allocation_space_available, lock, flip_word,
  set_bin_as_unused, initialize, default_metabin,
}

-- A word of a mask can be replaced by another word.
set-IsMask : (mask : List ℕ) (i w : ℕ) → IsMask mask → IsWord w → IsMask (set mask i w)
set-IsMask mask i w v h = record {
  size = length-set mask i w ∙ v.size;
  words = All-set IsWord mask i w v.words h;
}

pub set_bin_as_unused-IsMask :
    (m : Metabin) (bin_id chunk_id : ℕ)
    → IsMask m.bin_usage_mask
    → IsMask (set_bin_as_unused m bin_id chunk_id).bin_usage_mask
unfolding set_bin_as_unused
set_bin_as_unused-IsMask m bin_id chunk_id v = set-IsMask m.bin_usage_mask (bin_id / 32) _ v (
    bit_or-lt 32 (get_or m.bin_usage_mask (bin_id / 32) 0) (2 ^ (chunk_id % 32))
      (All-get_or IsWord m.bin_usage_mask (bin_id / 32) 0 v.words (omega arith))
      (pow-lt 32 (chunk_id % 32) (omega arith)))

-- What is flipped back is one bit of a word.
abbrev IsBit : Option (ℕ × ℕ) → Type 0
IsBit none = Unit
IsBit (some (i, bit)) = (k : ℕ) × (k < 32) × (bit ≡ 2 ^ k)

module _ (l : Libc) where
  abbrev Unlocks : Round l → Type 0
  Unlocks exhausted = Unit
  Unlocks (allocated s) = Unit
  Unlocks (locked s back) = IsBit back
  Unlocks Round.panicked = Unit

  use_bin-Unlocks :
      (c : Features) (chain_count : ℕ) (s : State l) (b : Bin)
      → Unlocks (use_bin l c chain_count s b)
  unfolding use_bin lock
  use_bin-Unlocks c chain_count s b =
      if_both Unlocks (not (is_deflate b.header.compression_state))
        (if_both Unlocks (chain_count == 0)
          (if_both Unlocks (allocate_chunk_unchained c b s.pointer s.world.pseudorand).0 tt tt)
          (if_both Unlocks (allocate_consecutive_chunks b s.pointer).0 tt
            (s.pointer.bin_id % 32, omega arith, refl)))
        tt

  open_bin-Unlocks :
      (c : Features) (chain_count : ℕ) (s : State l) (i : ℕ)
      → Unlocks (open_bin l c chain_count s i)
  unfolding open_bin
  open_bin-Unlocks c chain_count s i = go (
      if is_empty (bin_of s.metabin i)
      then Bin.initialize l (bin_of s.metabin i) s.cache s.world
      else Allocator.done (bin_of s.metabin i, s.cache, s.world))
    where
      go :
          (r : Allocator.Run (Bin × Cache × World l))
          → Unlocks (elim r [
            | Allocator.panic ↦ Round.panicked
            | Allocator.done (b', cache, world) ↦
                use_bin l c chain_count
                  (record s { pointer = set_bin_id s.pointer i; cache = cache; world = world })
                  b'
          ])
      go Allocator.panic = tt
      go (Allocator.done (b', cache, world)) = use_bin-Unlocks c chain_count _ b'

  round-Unlocks : (c : Features) (chain_count : ℕ) (s : State l) → Unlocks (round l c chain_count s)
  unfolding round
  round-Unlocks c chain_count s = go (new_bin_allocation_space_available c s.metabin)
    where
      go :
          (o : Option ℕ)
          → Unlocks
              (elim o [ none ↦ exhausted | some candidate ↦ open_bin l c chain_count s candidate ])
      go none = tt
      go (some i) = open_bin-Unlocks c chain_count s i

  -- The metabin of a result has a mask of 8 words.
  abbrev pub ResultMask : Result l → Type 0
  ResultMask (returned b s) = IsMask s.metabin.bin_usage_mask
  ResultMask Result.panicked = Unit
  ResultMask no_fuel = Unit

  unlock-ResultMask :
      (back : Option (ℕ × ℕ)) (r : Result l)
      → IsBit back
      → ResultMask r
      → ResultMask (unlock l back r)
  unfolding unlock flip_word
  unlock-ResultMask none r bit h = h
  unlock-ResultMask (some (i, b)) (returned done s) (k, below, e) h =
      set-IsMask s.metabin.bin_usage_mask i _ h (
        rw e (
          bit_xor-pow-lt 32 (get_or s.metabin.bin_usage_mask i 0) k
            (All-get_or IsWord s.metabin.bin_usage_mask i 0 h.words (omega arith)) below))
  unlock-ResultMask (some (i, b)) Result.panicked bit h = tt
  unlock-ResultMask (some (i, b)) no_fuel bit h = tt

  pub allocate_bin-ResultMask :
      (c : Features) (chain_count fuel : ℕ) (s : State l)
      → IsMask (mask_of l s)
      → ResultMask (allocate_bin l c fuel chain_count s)
  unfolding allocate_bin
  allocate_bin-ResultMask c chain_count zero s v = tt
  allocate_bin-ResultMask c chain_count (suc fuel) s v =
      go (round l c chain_count s) (round-Lowers l c chain_count s v)
        (round-Unlocks c chain_count s) (allocate_bin-ResultMask c chain_count fuel)
    where
      go :
          (r : Round l)
          → Lowers l (mask_of l s) r
          → Unlocks r
          → ((s' : State l)
              → IsMask (mask_of l s')
              → ResultMask (allocate_bin l c fuel chain_count s'))
          → ResultMask (elim r [
            | exhausted ↦ returned false s
            | allocated s' ↦ returned true s'
            | locked s' back ↦ unlock l back (allocate_bin l c fuel chain_count s')
            | Round.panicked ↦ Result.panicked
          ])
      go exhausted p k ih = v
      go (allocated s') p k ih = subst IsMask (sym p.2) v
      go (locked s' back) p k ih =
          unlock-ResultMask back (allocate_bin l c fuel chain_count s') k (ih s' p.0)
      go Round.panicked p k ih = tt

-- A new metabin has every bit of the lowest byte of each word set.
pub initialize-IsMask : (id : ℕ) → IsMask (initialize default_metabin id).bin_usage_mask
unfolding initialize fill
initialize-IsMask id = record { size = refl; words = All-replicate IsWord 8 255 (omega arith) }
