-- ===== src/Core/Search/Bounded.antt =====
-- core.rs, `allocate_bin`: the rounds of the search of a valid superbin.
use hyperion_rust.Common.{
  ℕ, zero, suc, ap, ◌+◌, ◌<◌, ◌≤◌, ◌≡◌, ◌≢◌, refl, ◌∙◌, true, false, none, some, get_or, drop,
  get_or-set_self, get_or-set_ne, arith, ℕ_discrete, inl, inr, ◌⊎◌, Option,
}
use hyperion_rust.Common.Lists.{get_or-append_left, get_or-drop, length-append, length-drop}
use hyperion_rust.Simd.Lanes.{Features}
use hyperion_rust.Mask.{free_count-le}
use hyperion_rust.Allocator.{Libc}
use hyperion_rust.Metabin.{Metabin, State, Result}
use hyperion_rust.Metabin
use hyperion_rust.Metabin.Allocate.{IsMask, allocate_bin-ends}
use hyperion_rust.Metabin.Named.{ResultNames, allocate_bin-ResultNames}
use hyperion_rust.Metabin.Masked.{ResultMask, allocate_bin-ResultMask}
use hyperion_rust.Pointer.{set_metabin_id}
use hyperion_rust.Superbin.{
  Superbin, self_update_metaring, shift_metabin_ring_left, get_metabin_candidate,
}
use hyperion_rust.Superbin.Valid.{IsValid}
use hyperion_rust.Superbin.Update.{rotated, update_rotates, self_update_metaring_lem}
use hyperion_rust.Core.Search.{Search, found, panicked, no_fuel, allocate_bin, put_back, to_state}
use hyperion_rust.Core.Search.Valid.{candidate-lt, put_back-IsValid}
use hyperion_rust.Core.Search.Ends.{Ends, allocate_bin-Ends}

-- An id at which the search does not go on to the next one: that of the newest metabin, or one that
-- is not there.
abbrev IsLast : Superbin → ℕ → Type 0
IsLast s id = (id + 1 ≡ s.header.metabins_initialized) ⊎ (s.header.metabins_initialized ≤ id)

-- The ring after a turn.
pub get_or-rotated :
    (s : Superbin) (n : ℕ)
    → IsValid 1 s
    → n < 15
    → get_or (rotated s).metabin_ring n 0 ≡ get_or s.metabin_ring (suc n) 0
unfolding shift_metabin_ring_left
get_or-rotated s n v h =
    get_or-set_ne (shift_metabin_ring_left s.metabin_ring) 15 n s.header.metabins_initialized 0
      (λ e. omega arith)
    ∙ get_or-append_left (drop 1 s.metabin_ring) (drop 15 s.metabin_ring) n 0
        (omega (arith, v.ring_size, length-drop 1 s.metabin_ring))
    ∙ get_or-drop 1 n s.metabin_ring 0
    ∙ ap (λ k. get_or s.metabin_ring k 0) {x = 1 + n} (omega arith)

pub get_or-rotated_last :
    (s : Superbin)
    → IsValid 1 s
    → get_or (rotated s).metabin_ring 15 0 ≡ s.header.metabins_initialized
unfolding shift_metabin_ring_left
get_or-rotated_last s v =
    get_or-set_self (shift_metabin_ring_left s.metabin_ring) 15 s.header.metabins_initialized 0 (
      omega (
        arith,
        v.ring_size,
        length-append (drop 1 s.metabin_ring) (drop 15 s.metabin_ring),
        length-drop 1 s.metabin_ring,
        length-drop 15 s.metabin_ring,
      ))

module _ (l : Libc) (c : Features) (chain_count : ℕ) where
  -- One round, and what is left to show if its metabin is full.
  round-Ends :
      (fuel : ℕ) (s : Search l) (m : Metabin)
      → IsValid 1 s.superbin
      → get_metabin_candidate s.superbin ≡ some m
      → ((st : State l)
          → IsValid 1 (put_back l st s).superbin
          → Ends l c chain_count (
              allocate_bin l c fuel chain_count (record (put_back l st s) {
                superbin = self_update_metaring (put_back l st s).superbin;
              })))
      → Ends l c chain_count (allocate_bin l c (suc fuel) chain_count s)
  unfolding allocate_bin
  round-Ends fuel s m v e next =
      rw (e, Ends, allocate_bin)
        (go (Metabin.allocate_bin l c 257 chain_count (to_state l m s))
          (allocate_bin-ends l c chain_count 257 (to_state l m s) mask
            (omega (arith, free_count-le m.bin_usage_mask, mask.size)))
          (allocate_bin-ResultNames l c chain_count 257 m.id s.pointer.superbin_id (to_state l m s)
            refl refl)
          (allocate_bin-ResultMask l c chain_count 257 (to_state l m s) mask))
    where
      mask : IsMask m.bin_usage_mask
      mask = (candidate-lt s.superbin (get_or s.superbin.metabin_ring 0 0) m v e).2

      go :
          (r : Result l)
          → r ≢ Metabin.Result.no_fuel
          → ResultNames l m.id s.pointer.superbin_id r
          → ResultMask l r
          → Ends l c chain_count (elim r [
            | Metabin.returned true st ↦
                found
                  (record (put_back l st s) { pointer = set_metabin_id st.pointer st.metabin.id })
            | Metabin.returned false st ↦
                allocate_bin l c fuel chain_count (record (put_back l st s) {
                  superbin = self_update_metaring (put_back l st s).superbin;
                })
            | Metabin.Result.panicked ↦ panicked
            | Metabin.Result.no_fuel ↦ no_fuel
          ])
      go (Metabin.returned true st) ne names h = tt
      go (Metabin.returned false st) ne names h =
          next st (put_back-IsValid 1 l s m st v e names.0 h).0
      go Metabin.Result.panicked ne names h = tt
      go Metabin.Result.no_fuel ne names h = absurd (ne refl)

  missing-Ends :
      (fuel : ℕ) (s : Search l)
      → get_metabin_candidate s.superbin ≡ none
      → Ends l c chain_count (allocate_bin l c (suc fuel) chain_count s)
  unfolding allocate_bin
  missing-Ends fuel s e = rw (e, Ends, allocate_bin) tt

  -- The newest metabin comes first in the ring.
  newest-Ends :
      (fuel : ℕ) (s : Search l)
      → 2 ≤ fuel
      → IsValid 1 s.superbin
      → s.superbin.header.metabins_initialized < 16
      → get_or s.superbin.metabin_ring 0 0 + 1 ≡ s.superbin.header.metabins_initialized
      → Ends l c chain_count (allocate_bin l c fuel chain_count s)
  newest-Ends zero s enough v few e = absurd (omega arith)
  newest-Ends (suc zero) s enough v few e = absurd (omega arith)
  newest-Ends (suc (suc fuel)) s enough v few e =
      let (m, there, _, mask) = v.present (get_or s.superbin.metabin_ring 0 0) (omega arith) in
      allocate_bin-Ends l c chain_count fuel s m
        (record { room = v.room; newest = e; few = few; ring = omega (arith, v.ring_size) }) there
        mask

  -- A metabin that is not the newest comes first: the ring turns.
  turn-Ends :
      (fuel : ℕ) (s : Search l)
      → IsValid 1 s.superbin
      → get_or s.superbin.metabin_ring 0 0 + 1 ≢ s.superbin.header.metabins_initialized
      → ((s' : Search l)
          → IsValid 1 s'.superbin
          → s'.superbin.header ≡ s.superbin.header
          → s'.superbin.metabin_ring ≡ (rotated s.superbin).metabin_ring
          → Ends l c chain_count (allocate_bin l c fuel chain_count s'))
      → Ends l c chain_count (allocate_bin l c (suc fuel) chain_count s)
  turn-Ends fuel s v ne next = go (get_metabin_candidate s.superbin) refl
    where
      go :
          (o : Option Metabin)
          → get_metabin_candidate s.superbin ≡ o
          → Ends l c chain_count (allocate_bin l c (suc fuel) chain_count s)
      go none e = missing-Ends fuel s e
      go (some m) e = round-Ends fuel s m v e (λ st v'.
          next _ (self_update_metaring_lem (put_back l st s).superbin v').0
            (rw (update_rotates (put_back l st s).superbin v' ne) refl)
            (rw (update_rotates (put_back l st s).superbin v' ne) refl))

  newest_or_turn :
      (fuel : ℕ) (s : Search l)
      → 1 ≤ fuel
      → IsValid 1 s.superbin
      → s.superbin.header.metabins_initialized < 16
      → ((s' : Search l)
          → IsValid 1 s'.superbin
          → s'.superbin.header ≡ s.superbin.header
          → s'.superbin.metabin_ring ≡ (rotated s.superbin).metabin_ring
          → Ends l c chain_count (allocate_bin l c fuel chain_count s'))
      → Ends l c chain_count (allocate_bin l c (suc fuel) chain_count s)
  newest_or_turn fuel s enough v few next =
      elim (ℕ_discrete (get_or s.superbin.metabin_ring 0 0 + 1)
        s.superbin.header.metabins_initialized) [
          | yes newest ↦ newest-Ends (suc fuel) s (omega arith) v few newest
          | no ne ↦ turn-Ends fuel s v ne next
        ]

  -- The ring holds such an id at a place: two rounds more than the place has others before it.
  allocate_bin-IsLast :
      (n fuel : ℕ) (s : Search l)
      → n + 2 ≤ fuel
      → IsValid 1 s.superbin
      → s.superbin.header.metabins_initialized < 16
      → n < 16
      → IsLast s.superbin (get_or s.superbin.metabin_ring n 0)
      → Ends l c chain_count (allocate_bin l c fuel chain_count s)
  allocate_bin-IsLast n zero s enough v few lt last = absurd (omega arith)
  allocate_bin-IsLast zero (suc fuel) s enough v few lt (inl newest) =
      newest-Ends (suc fuel) s enough v few newest
  allocate_bin-IsLast zero (suc fuel) s enough v few lt (inr beyond) =
      missing-Ends fuel s (v.absent (get_or s.superbin.metabin_ring 0 0) beyond)
  allocate_bin-IsLast (suc n) (suc fuel) s enough v few lt last =
      newest_or_turn fuel s (omega arith) v few (λ s' v' header ring.
        allocate_bin-IsLast n fuel s' (omega arith) v' (rw header few) (omega arith)
          (rw (header, ring, get_or-rotated s.superbin n v (omega arith)) last))

  -- The search of a valid superbin with fewer than 16 metabins ends within 18 rounds, by a chunk or
  -- by a panic, whatever its ring and its metabins hold, for one chunk and for eight.
  pub allocate_bin-Bounded :
      (fuel : ℕ) (s : Search l)
      → 18 ≤ fuel
      → IsValid 1 s.superbin
      → s.superbin.header.metabins_initialized < 16
      → Ends l c chain_count (allocate_bin l c fuel chain_count s)
  allocate_bin-Bounded zero s enough v few = absurd (omega arith)
  allocate_bin-Bounded (suc fuel) s enough v few =
      newest_or_turn fuel s (omega arith) v few (λ s' v' header ring.
        allocate_bin-IsLast 15 fuel s' (omega arith) v' (rw header few) (omega arith)
          (rw (header, ring, get_or-rotated_last s.superbin v) (inr (omega arith))))
