-- ===== src/Core/Search/Missing.antt =====
-- core.rs, `allocate_bin`, on a superbin whose ring lacks its newest metabin.
use hyperion_rust.Common.{
  ℕ, zero, suc, ◌+◌, ◌<◌, ◌≤◌, ◌≡◌, ◌≢◌, refl, ap, ◌∙◌, Option, none, some, get_or, arith,
}
use hyperion_rust.Simd.Lanes.{Features}
use hyperion_rust.Mask.{free_at}
use hyperion_rust.Allocator.{Libc}
use hyperion_rust.Metabin.{Metabin}
use hyperion_rust.Metabin.Outcome.{allocate_bin_empty}
use hyperion_rust.PointerArray.{get}
use hyperion_rust.Superbin.{Superbin, self_update_metaring, get_metabin_candidate}
use hyperion_rust.Superbin.Valid.{IsValid}
use hyperion_rust.Superbin.Update.{rotated, update_rotates, rotated-IsValid}
use hyperion_rust.Core.Search.{Search, allocate_bin, panicked, put_back, to_state}
use hyperion_rust.Core.Search.Valid.{candidate-lt}
use hyperion_rust.Core.Search.Bounded.{get_or-rotated, get_or-rotated_last}
use hyperion_rust.Core.Search.Stuck.{set-get}

-- No bit is set in the mask of any metabin.
abbrev pub AllFull : Superbin → Type 0
AllFull s =
    (i : ℕ) (m : Metabin) → get s.metabins i ≡ some m → (j : ℕ) → free_at m.bin_usage_mask j ≡ 0

-- The newest metabin is at none of the first places of the ring.
abbrev pub LacksNewest : ℕ → Superbin → Type 0
LacksNewest n s = (i : ℕ) → i < n → get_or s.metabin_ring i 0 + 1 ≢ s.header.metabins_initialized

module _ (l : Libc) (c : Features) (chain_count : ℕ) where
  put_back_same :
      (s : Search l) (m : Metabin)
      → get_metabin_candidate s.superbin ≡ some m
      → put_back l (to_state l m s) s ≡ s
  put_back_same s m e =
      ap (λ metabins. record s { superbin = record (s.superbin) { metabins = metabins } })
        (set-get s.superbin.metabins (get_or s.superbin.metabin_ring 0 0) m e)

  -- A full metabin that is not the newest: the ring turns.
  full_round :
      (fuel : ℕ) (s : Search l) (m : Metabin)
      → IsValid 1 s.superbin
      → AllFull s.superbin
      → get_or s.superbin.metabin_ring 0 0 + 1 ≢ s.superbin.header.metabins_initialized
      → get_metabin_candidate s.superbin ≡ some m
      → allocate_bin l c (suc fuel) chain_count s
        ≡ allocate_bin l c fuel chain_count (record s { superbin = rotated s.superbin })
  unfolding allocate_bin
  full_round fuel s m v full ne e =
      rw
        (
          e,
          allocate_bin,
          allocate_bin_empty l c chain_count 256 (to_state l m s)
              (candidate-lt s.superbin (get_or s.superbin.metabin_ring 0 0) m v e).2
              (full (get_or s.superbin.metabin_ring 0 0) m e),
        )
        (ap
            (λ r.
              allocate_bin l c fuel chain_count
                (record r { superbin = self_update_metaring r.superbin }))
            (put_back_same s m e)
          ∙ ap (λ superbin. allocate_bin l c fuel chain_count (record s { superbin = superbin }))
              (update_rotates s.superbin v ne))

  missing_round :
      (fuel : ℕ) (s : Search l)
      → get_metabin_candidate s.superbin ≡ none
      → allocate_bin l c (suc fuel) chain_count s ≡ panicked
  unfolding allocate_bin
  missing_round fuel s e = rw (e, allocate_bin) refl

  -- One round, and what is left to show if it goes on.
  turn :
      (fuel : ℕ) (s : Search l)
      → IsValid 1 s.superbin
      → AllFull s.superbin
      → get_or s.superbin.metabin_ring 0 0 + 1 ≢ s.superbin.header.metabins_initialized
      → allocate_bin l c fuel chain_count (record s { superbin = rotated s.superbin }) ≡ panicked
      → allocate_bin l c (suc fuel) chain_count s ≡ panicked
  turn fuel s v full ne next = go (get_metabin_candidate s.superbin) refl
    where
      go :
          (o : Option Metabin)
          → get_metabin_candidate s.superbin ≡ o
          → allocate_bin l c (suc fuel) chain_count s ≡ panicked
      go none e = missing_round fuel s e
      go (some m) e = full_round fuel s m v full ne e ∙ next

  -- The ring holds an id that is not there at a place, and before it not the newest.
  panics_at :
      (n fuel : ℕ) (s : Search l)
      → n < fuel
      → IsValid 1 s.superbin
      → AllFull s.superbin
      → n < 16
      → LacksNewest n s.superbin
      → s.superbin.header.metabins_initialized ≤ get_or s.superbin.metabin_ring n 0
      → allocate_bin l c fuel chain_count s ≡ panicked
  panics_at n zero s enough v full lt lacks beyond = absurd (omega arith)
  panics_at zero (suc fuel) s enough v full lt lacks beyond =
      missing_round fuel s (v.absent (get_or s.superbin.metabin_ring 0 0) beyond)
  panics_at (suc n) (suc fuel) s enough v full lt lacks beyond =
      turn fuel s v full (lacks 0 (omega arith)) (
        panics_at n fuel (record s { superbin = rotated s.superbin }) (omega arith)
          (rotated-IsValid s.superbin v) full (omega arith)
          (λ i h. rw (get_or-rotated s.superbin i v (omega arith)) (lacks (suc i) (omega arith)))
          (rw (get_or-rotated s.superbin n v (omega arith)) beyond))

  -- In a valid superbin in which no bit is set in the mask of any metabin, and whose ring of 16 does
  -- not hold the id of the newest metabin, the search for one chunk or for eight panics within 17 rounds,
  -- also while there are fewer than 16 metabins.
  pub allocate_bin_panics :
      (fuel : ℕ) (s : Search l)
      → 17 ≤ fuel
      → IsValid 1 s.superbin
      → AllFull s.superbin
      → LacksNewest 16 s.superbin
      → allocate_bin l c fuel chain_count s ≡ panicked
  allocate_bin_panics zero s enough v full lacks = absurd (omega arith)
  allocate_bin_panics (suc fuel) s enough v full lacks =
      turn fuel s v full (lacks 0 (omega arith)) (
        panics_at 15 fuel (record s { superbin = rotated s.superbin }) (omega arith)
          (rotated-IsValid s.superbin v) full (omega arith)
          (λ i h. rw (get_or-rotated s.superbin i v (omega arith)) (lacks (suc i) (omega arith)))
          (rw (get_or-rotated_last s.superbin v) (omega arith)))
