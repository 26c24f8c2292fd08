-- ===== src/Core/Search/Ends.antt =====
-- core.rs, `allocate_bin`, on a superbin whose newest metabin comes first in the ring.
use hyperion_rust.Common.{
  ℕ, suc, ◌+◌, ◌<◌, ◌≤◌, ◌≡◌, ◌≢◌, refl, sym, ◌∙◌, Bool, true, false, some, get_or, length, arith,
  length-set, get_or-set_self,
}
use hyperion_rust.Simd.Lanes.{Features}
use hyperion_rust.Mask.{free_count-le}
use hyperion_rust.Allocator.{Libc}
use hyperion_rust.Pointer.{set_metabin_id}
use hyperion_rust.Metabin.{Metabin, default_metabin, State, Result}
use hyperion_rust.Metabin
use hyperion_rust.Metabin.Allocate.{IsMask, allocate_bin-ends}
use hyperion_rust.Metabin.Fresh.{Succeeds, allocate_bin-Succeeds}
use hyperion_rust.Superbin.{Superbin, self_update_metaring, get_metabin_candidate}
use hyperion_rust.Superbin.Update.{update_grows, get-grown}
use hyperion_rust.Core.Search.{
  Search, SearchResult, found, panicked, no_fuel, allocate_bin, put_back, to_state,
}

-- The ring's first id is that of the newest metabin, and there is room for another.
pub record HasRoom (s : Superbin) : Type 0 where
  pub room : 16 ≤ length s.metabins
  pub newest : get_or s.metabin_ring 0 0 + 1 ≡ s.header.metabins_initialized
  pub few : s.header.metabins_initialized < 16
  pub ring : 1 ≤ length s.metabin_ring

module _ (l : Libc) (c : Features) (chain_count : ℕ) where
  -- The search did not run out of rounds.
  abbrev pub Ends : SearchResult l → Type 0
  Ends (found s) = Unit
  Ends panicked = Unit
  Ends no_fuel = ⊥

  -- A round whose metabin was just initialised.
  fresh_round :
      (fuel id : ℕ) (s : Search l)
      → get_metabin_candidate s.superbin ≡ some (Metabin.initialize default_metabin id)
      → Ends (allocate_bin l c (suc fuel) chain_count s)
  unfolding allocate_bin
  fresh_round fuel id s e =
      rw (e, Ends, allocate_bin)
        (go
          (Metabin.allocate_bin l c 257 chain_count
            (to_state l (Metabin.initialize default_metabin id) s))
          (allocate_bin-Succeeds l c chain_count 256 id
            (to_state l (Metabin.initialize default_metabin id) s) refl))
    where
      go :
          (r : Result l)
          → Succeeds {l = l} r
          → Ends (elim r [
            | Metabin.returned true st ↦
                found
                  (record (put_back l st s) { pointer = set_metabin_id st.pointer st.metabin.id })
            | Metabin.returned false st ↦
                allocate_bin l c fuel chain_count (record (put_back l st s) {
                  superbin = self_update_metaring (put_back l st s).superbin;
                })
            | Metabin.Result.panicked ↦ panicked
            | Metabin.Result.no_fuel ↦ no_fuel
          ])
      go (Metabin.returned true st) h = tt
      go (Metabin.returned false st) h = absurd (true_false (sym h))
        where
          true_false : ◌≡◌ {A = Bool} true false → ⊥
          true_false e' = cc e'
      go Metabin.Result.panicked h = tt
      go Metabin.Result.no_fuel h = absurd h

  update-candidate :
      (s : Superbin)
      → HasRoom s
      → get_metabin_candidate (self_update_metaring s)
        ≡ some (Metabin.initialize default_metabin s.header.metabins_initialized)
  update-candidate s h =
      rw
        (
          update_grows s h.newest h.few,
          get_or-set_self s.metabin_ring 0 s.header.metabins_initialized 0 h.ring,
        )
        (get-grown s h.room h.few s.header.metabins_initialized ∙ ground arith)

  -- The search of a superbin that has room for another metabin, the newest of which comes first in
  -- the ring and has a mask of 8 words, ends within two rounds, by a chunk or by a panic: if the
  -- newest metabin is full, the one that is added gives the chunk. So it does for eight chunks.
  pub allocate_bin-Ends :
      (fuel : ℕ) (s : Search l) (m : Metabin)
      → HasRoom s.superbin
      → get_metabin_candidate s.superbin ≡ some m
      → IsMask m.bin_usage_mask
      → Ends (allocate_bin l c (suc (suc fuel)) chain_count s)
  unfolding allocate_bin
  allocate_bin-Ends fuel s m h e mask =
      rw (e, Ends, allocate_bin)
        (go (Metabin.allocate_bin l c 257 chain_count (to_state l m s)) (
          allocate_bin-ends l c chain_count 257 (to_state l m s) mask
            (omega (arith, free_count-le m.bin_usage_mask, mask.size))))
    where
      still_room : (st : State l) → HasRoom (put_back l st s).superbin
      still_room st = record {
        room = omega (
          arith,
          h.room,
          length-set s.superbin.metabins (get_or s.superbin.metabin_ring 0 0) (some st.metabin),
        );
        newest = h.newest;
        few = h.few;
        ring = h.ring;
      }

      go :
          (r : Result l)
          → r ≢ Metabin.Result.no_fuel
          → Ends (elim r [
            | Metabin.returned true st ↦
                found
                  (record (put_back l st s) { pointer = set_metabin_id st.pointer st.metabin.id })
            | Metabin.returned false st ↦
                allocate_bin l c (suc fuel) chain_count (record (put_back l st s) {
                  superbin = self_update_metaring (put_back l st s).superbin;
                })
            | Metabin.Result.panicked ↦ panicked
            | Metabin.Result.no_fuel ↦ no_fuel
          ])
      go (Metabin.returned true st) ne = tt
      go (Metabin.returned false st) ne =
          fresh_round fuel s.superbin.header.metabins_initialized
            (record (put_back l st s) {
              superbin = self_update_metaring (put_back l st s).superbin;
            })
            (update-candidate (put_back l st s).superbin (still_room st))
      go Metabin.Result.panicked ne = tt
      go Metabin.Result.no_fuel ne = ne refl
