-- ===== src/Metabin/Allocate.antt =====
-- The search of a metabin for a free chunk ends: each round that goes on has locked a bin.
use hyperion_rust.Common.{
  ℕ, zero, suc, ◌+◌, ◌<◌, ◌≤◌, ◌≡◌, ◌≢◌, refl, sym, subst, ◌∙◌, List, ◌==◌, if◌then◌else◌, Bool,
  true, false, not, Option, none, some, All, length, arith, if_both,
}
use hyperion_rust.Simd.Lanes.{Features, bytes_of}
use hyperion_rust.Simd.FirstBit.{get_index_first_set_bit_256_2}
use hyperion_rust.Simd.FirstBit.Spec.{IsFirstSet}
use hyperion_rust.Simd.FirstBit.Agree.{get_index_first_set_bit_256_2-IsFirstSet}
use hyperion_rust.Mask.{
  IsWord, free_at, free_count, length-toggle, toggle-IsWord, free_at-toggle, free_count-toggle,
}
use hyperion_rust.Mask.Bytes.{length-bytes_of, bytes_of-IsByte, mem_bit-bytes_of}
use hyperion_rust.Allocator.{Libc}
use hyperion_rust.Allocator
use hyperion_rust.Pointer.{set_bin_id, is_deflate}
use hyperion_rust.Bin.Allocate.{bin_id-allocate_chunk_unchained, bin_id-allocate_consecutive_chunks}
use hyperion_rust.Bin.{Bin, allocate_chunk_unchained, allocate_consecutive_chunks, is_empty}
use hyperion_rust.Bin
use hyperion_rust.Metabin.{
  Metabin, lock_bin, bin_of, put_bin, new_bin_allocation_space_available, State, Round, exhausted,
  allocated, locked, Result, returned, no_fuel, lock, use_bin, open_bin, round, unlock,
  allocate_bin,
}

-- The usage mask is an array of 8 words.
pub record IsMask (mask : List ℕ) : Type 0 where
  pub size : length mask ≡ 8
  pub words : All IsWord mask

-- The candidate is the first bin whose bit is set; there is none only if no bit is set.
abbrev pub IsCandidate : List ℕ → Option ℕ → Type 0
IsCandidate mask none = (j : ℕ) → free_at mask j ≡ 0
IsCandidate mask (some i) =
    (i < 256) × (free_at mask i ≡ 1) × ((j : ℕ) → j < i → free_at mask j ≡ 0)

IsCandidate-of :
    (c : Features) (m : Metabin) (o : Option ℕ)
    → length m.bin_usage_mask ≡ 8
    → IsFirstSet (bytes_of m.bin_usage_mask) o
    → get_index_first_set_bit_256_2 c (some (bytes_of m.bin_usage_mask)) ≡ o
    → IsCandidate m.bin_usage_mask (new_bin_allocation_space_available c m)
unfolding new_bin_allocation_space_available
IsCandidate-of c m none e h q =
    rw (q, new_bin_allocation_space_available)
      (λ j. sym (mem_bit-bytes_of m.bin_usage_mask j) ∙ h j)
IsCandidate-of c m (some i) e h q =
    rw (q, new_bin_allocation_space_available)
      (subst (λ k. IsCandidate m.bin_usage_mask (some k)) {x = i}
        (omega (arith, h.0, e, length-bytes_of m.bin_usage_mask))
        (
          omega (arith, h.0, e, length-bytes_of m.bin_usage_mask),
          sym (mem_bit-bytes_of m.bin_usage_mask i) ∙ h.1,
          λ j lt. sym (mem_bit-bytes_of m.bin_usage_mask j) ∙ h.2 j lt,
        ))

-- In a metabin whose usage mask is an array of 8 words, the bin that is tried next is the first
-- whose bit is set, on every processor; there is none only if no bit is set.
pub new_bin_allocation_space_available-IsCandidate :
    (c : Features) (m : Metabin)
    → IsMask m.bin_usage_mask
    → IsCandidate m.bin_usage_mask (new_bin_allocation_space_available c m)
new_bin_allocation_space_available-IsCandidate c m v =
    IsCandidate-of c m _ v.size
      (get_index_first_set_bit_256_2-IsFirstSet c _ (bytes_of-IsByte m.bin_usage_mask)
        (omega (arith, length-bytes_of m.bin_usage_mask, v.size)))
      refl

module _ (l : Libc) where
  abbrev pub mask_of : State l → List ℕ
  mask_of s = s.metabin.bin_usage_mask

  -- A round that goes on has cleared one bit of the mask. One that allocates used a bin whose bit
  -- is set, and kept the mask. One that gives up found no bit set.
  abbrev pub Lowers : List ℕ → Round l → Type 0
  Lowers mask exhausted = (j : ℕ) → free_at mask j ≡ 0
  Lowers mask (allocated s) =
      (s.pointer.bin_id < 256) × (free_at mask s.pointer.bin_id ≡ 1) × (mask_of s ≡ mask)
  Lowers mask (locked s back) =
      IsMask (mask_of s)
      × (free_count (mask_of s) + 1 ≡ free_count mask)
      × ((j : ℕ) → free_at (mask_of s) j ≤ free_at mask j)
  Lowers mask Round.panicked = Unit

  lock-Lowers :
      (mask : List ℕ) (u : Bool) (s : State l)
      → mask_of s ≡ mask
      → IsMask mask
      → s.pointer.bin_id < 256
      → free_at mask s.pointer.bin_id ≡ 1
      → Lowers mask (lock l u s)
  unfolding lock lock_bin
  lock-Lowers mask u s e v h f = rw e (
    record {
      size = length-toggle mask s.pointer.bin_id ∙ v.size;
      words = toggle-IsWord mask s.pointer.bin_id v.words;
    },
    omega (arith, free_count-toggle mask s.pointer.bin_id (omega (arith, v.size)), f),
    λ j. ground (arith, free_at-toggle mask s.pointer.bin_id j (omega (arith, v.size)), f),
  )

  use_bin-Lowers :
      (c : Features) (chain_count : ℕ) (s : State l) (b : Bin)
      → IsMask (mask_of s)
      → s.pointer.bin_id < 256
      → free_at (mask_of s) s.pointer.bin_id ≡ 1
      → Lowers (mask_of s) (use_bin l c chain_count s b)
  unfolding use_bin
  use_bin-Lowers c chain_count s b v h f =
      if_both P (not (is_deflate b.header.compression_state))
        (if_both P (chain_count == 0)
          (if_both P (allocate_chunk_unchained c b s.pointer s.world.pseudorand).0
            (used _ (bin_id-allocate_chunk_unchained c b s.pointer s.world.pseudorand))
            (lock-Lowers (mask_of s) false moved refl v h f))
          (if_both P (allocate_consecutive_chunks b s.pointer).0
            (used _ (bin_id-allocate_consecutive_chunks b s.pointer))
            (lock-Lowers (mask_of s) true kept refl v h f)))
        (lock-Lowers (mask_of s) false kept refl v h f)
    where
      used :
          (k : ℕ)
          → k ≡ s.pointer.bin_id
          → (k < 256) × (free_at (mask_of s) k ≡ 1) × (mask_of s ≡ mask_of s)
      used k e = (rw e h, rw e f, refl)

      kept : State l
      kept = record s { metabin = put_bin s.metabin s.pointer.bin_id b }

      moved : State l
      moved = record kept {
        world = record (s.world) {
          pseudorand = (allocate_chunk_unchained c b s.pointer s.world.pseudorand).3;
        };
      }

      P : Round l → Type 0
      P = Lowers (mask_of s)

  open_bin-Lowers :
      (c : Features) (chain_count : ℕ) (s : State l) (i : ℕ)
      → IsMask (mask_of s)
      → i < 256
      → free_at (mask_of s) i ≡ 1
      → Lowers (mask_of s) (open_bin l c chain_count s i)
  unfolding open_bin
  open_bin-Lowers c chain_count s i v h f = go (
      if is_empty (bin_of s.metabin i)
      then Bin.initialize l (bin_of s.metabin i) s.cache s.world
      else Allocator.done (bin_of s.metabin i, s.cache, s.world))
    where
      go :
          (r : Allocator.Run (Bin × Bin.Cache × Allocator.World l))
          → Lowers (mask_of s) (elim r [
            | Allocator.panic ↦ Round.panicked
            | Allocator.done (b', cache, world) ↦
                use_bin l c chain_count
                  (record s { pointer = set_bin_id s.pointer i; cache = cache; world = world })
                  b'
          ])
      go Allocator.panic = tt
      go (Allocator.done (b', cache, world)) = use_bin-Lowers c chain_count _ b' v h f

  pub round-Lowers :
      (c : Features) (chain_count : ℕ) (s : State l)
      → IsMask (mask_of s)
      → Lowers (mask_of s) (round l c chain_count s)
  round-Lowers c chain_count s v =
      go (new_bin_allocation_space_available c s.metabin) refl
        (new_bin_allocation_space_available-IsCandidate c s.metabin v)
    where
      go :
          (o : Option ℕ)
          → new_bin_allocation_space_available c s.metabin ≡ o
          → IsCandidate (mask_of s) o
          → Lowers (mask_of s) (round l c chain_count s)
      go none e h = unfold round in rw (e, round) h
      go (some i) e h = unfold round in rw (e, round) (open_bin-Lowers c chain_count s i v h.0 h.1)

  -- The search of a metabin whose usage mask is an array of 8 words ends in fewer rounds than the
  -- mask has set bits plus one: given more rounds than set bits, it never runs out of rounds,
  -- whatever the bins hold and whether it looks for one chunk or for eight.
  pub allocate_bin-ends :
      (c : Features) (chain_count fuel : ℕ) (s : State l)
      → IsMask (mask_of s)
      → free_count (mask_of s) < fuel
      → allocate_bin l c fuel chain_count s ≢ no_fuel
  unfolding allocate_bin
  allocate_bin-ends c chain_count zero s v h = absurd (omega arith)
  allocate_bin-ends c chain_count (suc fuel) s v h =
      go (round l c chain_count s) (round-Lowers c chain_count s v)
        (allocate_bin-ends c chain_count fuel)
    where
      still : (back : Option (ℕ × ℕ)) (r : Result l) → r ≢ no_fuel → unlock l back r ≢ no_fuel
      still none r ne = ne
      still (some (i, b)) (returned ok s') ne = λ e. cc
      still (some (i, b)) Result.panicked ne = λ e. cc
      still (some (i, b)) no_fuel ne = ne

      go :
          (r : Round l)
          → Lowers (mask_of s) r
          → ((s' : State l)
              → IsMask (mask_of s')
              → free_count (mask_of s') < fuel
              → allocate_bin l c fuel chain_count s' ≢ no_fuel)
          → elim r [
            | exhausted ↦ returned false s
            | allocated s' ↦ returned true s'
            | locked s' back ↦ unlock l back (allocate_bin l c fuel chain_count s')
            | Round.panicked ↦ Result.panicked
          ]
            ≢ no_fuel
      go exhausted p ih = λ e. cc
      go (allocated s') p ih = λ e. cc
      go (locked s' back) p ih = still back _ (ih s' p.0 (omega (arith, p.1)))
      go Round.panicked p ih = λ e. cc
