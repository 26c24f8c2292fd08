-- ===== src/Metabin/Outcome.antt =====
-- What the search of a metabin for a free chunk returns.
use hyperion_rust.Common.{
  ℕ, zero, suc, ◌<◌, ◌≤◌, ◌≡◌, ◌≢◌, refl, sym, ◌∙◌, List, true, false, Option, none, some, arith,
  if_both, Bool-cases, inl, inr, ◌⊎◌, ◌==◌, not, if◌then◌else◌, get_or, ◌/◌, ◌%◌,
}
use hyperion_rust.Simd.Lanes.{Features}
use hyperion_rust.Mask.{free_at}
use hyperion_rust.Allocator.{Libc}
use hyperion_rust.Allocator
use hyperion_rust.Common.Bits.{bit_at-lt}
use hyperion_rust.Pointer.{set_bin_id, is_deflate}
use hyperion_rust.Bin.{Bin, is_empty, allocate_chunk_unchained, allocate_consecutive_chunks}
use hyperion_rust.Bin
use hyperion_rust.Metabin.Allocate.{
  IsCandidate, new_bin_allocation_space_available-IsCandidate, IsMask, mask_of, Lowers,
  round-Lowers,
}
use hyperion_rust.Metabin.{
  State, Round, exhausted, allocated, locked, Result, returned, no_fuel, use_bin, open_bin, round,
  unlock, allocate_bin, bin_of, new_bin_allocation_space_available,
}

module _ (l : Libc) where
  -- A success used one of the bins whose bit is set in the given mask. A failure in the search for
  -- one chunk has every bit of the resulting mask clear.
  abbrev pub Outcome : ℕ → List ℕ → Result l → Type 0
  Outcome chain_count mask (returned true s) =
      (s.pointer.bin_id < 256) × (free_at mask s.pointer.bin_id ≡ 1)
  Outcome chain_count mask (returned false s) =
      (chain_count ≢ 0) ⊎ ((j : ℕ) → free_at (mask_of l s) j ≡ 0)
  Outcome chain_count mask Result.panicked = Unit
  Outcome chain_count mask no_fuel = Unit

  -- Only the search for eight chunks flips a locked bit back.
  abbrev Keeps : ℕ → Round l → Type 0
  Keeps chain_count exhausted = Unit
  Keeps chain_count (allocated s) = Unit
  Keeps chain_count (locked s none) = Unit
  Keeps chain_count (locked s (some back)) = chain_count ≢ 0
  Keeps chain_count Round.panicked = Unit

  use_bin-Keeps :
      (c : Features) (chain_count : ℕ) (s : State l) (b : Bin)
      → Keeps chain_count (use_bin l c chain_count s b)
  unfolding use_bin
  use_bin-Keeps c chain_count s b = elim (Bool-cases (chain_count == 0)) [
    | inl e ↦ rw e (
        if_both P (not (is_deflate b.header.compression_state))
          (if_both P (allocate_chunk_unchained c b s.pointer s.world.pseudorand).0 tt tt) tt)
    | inr e ↦ rw e (
        if_both P (not (is_deflate b.header.compression_state))
          (if_both P (allocate_consecutive_chunks b s.pointer).0 tt (ground arith)) tt)
  ]
    where
      P : Round l → Type 0
      P = Keeps chain_count

  open_bin-Keeps :
      (c : Features) (chain_count : ℕ) (s : State l) (i : ℕ)
      → Keeps chain_count (open_bin l c chain_count s i)
  unfolding open_bin
  open_bin-Keeps c chain_count s i = go (
      if is_empty (bin_of s.metabin i)
      then Bin.initialize l (bin_of s.metabin i) s.cache s.world
      else Allocator.done (bin_of s.metabin i, s.cache, s.world))
    where
      go :
          (r : Allocator.Run (Bin × Bin.Cache × Allocator.World l))
          → Keeps chain_count (elim r [
            | Allocator.panic ↦ Round.panicked
            | Allocator.done (b', cache, world) ↦
                use_bin l c chain_count
                  (record s { pointer = set_bin_id s.pointer i; cache = cache; world = world })
                  b'
          ])
      go Allocator.panic = tt
      go (Allocator.done (b', cache, world)) = use_bin-Keeps c chain_count _ b'

  round-Keeps :
      (c : Features) (chain_count : ℕ) (s : State l) → Keeps chain_count (round l c chain_count s)
  unfolding round
  round-Keeps c chain_count s = go (new_bin_allocation_space_available c s.metabin)
    where
      go :
          (o : Option ℕ)
          → Keeps chain_count
              (elim o [ none ↦ exhausted | some candidate ↦ open_bin l c chain_count s candidate ])
      go none = tt
      go (some i) = open_bin-Keeps c chain_count s i

  Outcome-unlock :
      (chain_count : ℕ) (mask : List ℕ) (s' : State l) (back : Option (ℕ × ℕ)) (r : Result l)
      → ((j : ℕ) → free_at (mask_of l s') j ≤ free_at mask j)
      → Keeps chain_count (locked s' back)
      → Outcome chain_count (mask_of l s') r
      → Outcome chain_count mask (unlock l back r)
  unfolding unlock
  Outcome-unlock chain_count mask s' none (returned true s) h k o = (
    o.0,
    omega (
      arith,
      h s.pointer.bin_id,
      bit_at-lt (get_or mask (s.pointer.bin_id / 32) 0) (s.pointer.bin_id % 32),
      o.1,
    ),
  )
  Outcome-unlock chain_count mask s' none (returned false s) h k o = o
  Outcome-unlock chain_count mask s' none Result.panicked h k o = tt
  Outcome-unlock chain_count mask s' none no_fuel h k o = tt
  Outcome-unlock chain_count mask s' (some (i, b)) (returned true s) h k o = (
    o.0,
    omega (
      arith,
      h s.pointer.bin_id,
      bit_at-lt (get_or mask (s.pointer.bin_id / 32) 0) (s.pointer.bin_id % 32),
      o.1,
    ),
  )
  Outcome-unlock chain_count mask s' (some (i, b)) (returned false s) h k o = inl k
  Outcome-unlock chain_count mask s' (some (i, b)) Result.panicked h k o = tt
  Outcome-unlock chain_count mask s' (some (i, b)) no_fuel h k o = tt

  -- The search of a metabin whose usage mask is an array of 8 words, whatever the number of
  -- rounds: if it returns success, the pointer names one of the 256 bins, whose bit was set at the
  -- start; if it returns failure in the search for one chunk, the mask it leaves has no bit set.
  pub allocate_bin-Outcome :
      (c : Features) (chain_count fuel : ℕ) (s : State l)
      → IsMask (mask_of l s)
      → Outcome chain_count (mask_of l s) (allocate_bin l c fuel chain_count s)
  unfolding allocate_bin
  allocate_bin-Outcome c chain_count zero s v = tt
  allocate_bin-Outcome c chain_count (suc fuel) s v =
      go (round l c chain_count s) (round-Lowers l c chain_count s v) (round-Keeps c chain_count s)
        (allocate_bin-Outcome c chain_count fuel)
    where
      go :
          (r : Round l)
          → Lowers l (mask_of l s) r
          → Keeps chain_count r
          → ((s' : State l)
              → IsMask (mask_of l s')
              → Outcome chain_count (mask_of l s') (allocate_bin l c fuel chain_count s'))
          → Outcome chain_count (mask_of l s) (elim r [
            | exhausted ↦ returned false s
            | allocated s' ↦ returned true s'
            | locked s' back ↦ unlock l back (allocate_bin l c fuel chain_count s')
            | Round.panicked ↦ Result.panicked
          ])
      go exhausted p k ih = inr p
      go (allocated s') p k ih = (p.0, p.1)
      go (locked s' back) p k ih =
          Outcome-unlock chain_count (mask_of l s) s' back _ p.2 k (ih s' p.0)
      go Round.panicked p k ih = tt

  -- Without a set bit, the search returns at once.
  pub allocate_bin_empty :
      (c : Features) (chain_count fuel : ℕ) (s : State l)
      → IsMask (mask_of l s)
      → ((j : ℕ) → free_at (mask_of l s) j ≡ 0)
      → allocate_bin l c (suc fuel) chain_count s ≡ returned false s
  unfolding allocate_bin round
  allocate_bin_empty c chain_count fuel s v h = rw (nothing, allocate_bin, round) refl
    where
      nothing : new_bin_allocation_space_available c s.metabin ≡ none
      nothing =
          no_candidate (new_bin_allocation_space_available c s.metabin)
            (new_bin_allocation_space_available-IsCandidate c s.metabin v)
        where
          no_candidate : (o : Option ℕ) → IsCandidate (mask_of l s) o → o ≡ none
          no_candidate none e = refl
          no_candidate (some i) e = absurd (one_zero (sym (e.1) ∙ h i))
            where
              one_zero : ◌≡◌ {A = ℕ} 1 0 → ⊥
              one_zero z = omega arith
