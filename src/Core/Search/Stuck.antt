-- ===== src/Core/Search/Stuck.antt =====
-- core.rs, `allocate_bin`, on a superbin with 16 metabins.
use hyperion_rust.Common.{
  ℕ, zero, suc, ◌≡◌, refl, sym, ap, ◌∙◌, [], ◌∷◌, some, set, get_or, arith, inl, inr,
}
use hyperion_rust.Simd.Lanes.{Features}
use hyperion_rust.Mask.{free_at}
use hyperion_rust.Allocator.{Libc}
use hyperion_rust.Metabin.{Metabin}
use hyperion_rust.Metabin.Allocate.{IsMask}
use hyperion_rust.Metabin.Outcome.{allocate_bin_empty}
use hyperion_rust.PointerArray.{PointerArray, get}
use hyperion_rust.Superbin.{Superbin, self_update_metaring}
use hyperion_rust.Superbin.Valid.{IsValid}
use hyperion_rust.Superbin.Update.{Updated, self_update_metaring_lem}
use hyperion_rust.Core.Search.{Search, allocate_bin, no_fuel, put_back, to_state}

-- All 16 metabins are there, and the last is first in the ring.
pub record IsFull (m : Metabin) (s : Superbin) : Type 0 where
  pub valid : IsValid 1 s
  pub all_16 : s.header.metabins_initialized ≡ 16
  pub last_first : get_or s.metabin_ring 0 0 ≡ 15
  pub last : get s.metabins 15 ≡ some m

pub set-get : (a : PointerArray) (i : ℕ) (m : Metabin) → get a i ≡ some m → set a i (some m) ≡ a
set-get [] i m h = refl
set-get (x ∷ xs) zero m h = ap (λ y. y ∷ xs) (sym h)
set-get (x ∷ xs) (suc i) m h = ap (λ ys. x ∷ ys) (set-get xs i m h)

self_update_metaring-IsFull :
    (m : Metabin) (s : Superbin) → IsFull m s → IsFull m (self_update_metaring s)
self_update_metaring-IsFull m s full = go (self_update_metaring_lem s full.valid).1
  where
    go : Updated s (self_update_metaring s) → IsFull m (self_update_metaring s)
    go (inl few) = absurd (omega (arith, few.0, full.all_16))
    go (inr (inl same)) = record {
      valid = (self_update_metaring_lem s full.valid).0;
      all_16 = ap (λ h. h.metabins_initialized) same.2 ∙ full.all_16;
      last_first = ap (λ r. get_or r 0 0) same.3 ∙ full.last_first;
      last = same.4 15 ∙ full.last;
    }
    go (inr (inr other)) = absurd (other.0 (omega (arith, full.all_16, full.last_first)))

-- In a valid superbin with 16 metabins, the last of which is first in the ring and has a mask of 8
-- words without a set bit, the search for a chunk does not end: it runs out of any number of rounds.
pub allocate_bin_stuck :
    (l : Libc) (c : Features) (chain_count : ℕ) (m : Metabin)
    → IsMask m.bin_usage_mask
    → ((j : ℕ) → free_at m.bin_usage_mask j ≡ 0)
    → (fuel : ℕ) (s : Search l) → IsFull m s.superbin
    → allocate_bin l c fuel chain_count s ≡ no_fuel
unfolding allocate_bin
allocate_bin_stuck l c chain_count m mask none_free zero s full = refl
allocate_bin_stuck l c chain_count m mask none_free (suc fuel) s full =
    rw
      (
        full.last_first,
        allocate_bin,
        full.last,
        allocate_bin_empty l c chain_count 256 (to_state l m s) mask none_free,
      )
      (allocate_bin_stuck l c chain_count m mask none_free fuel
        (record s { superbin = self_update_metaring (put_back l (to_state l m s) s).superbin })
        (self_update_metaring-IsFull m (put_back l (to_state l m s) s).superbin unchanged))
  where
    unchanged : IsFull m (put_back l (to_state l m s) s).superbin
    unchanged = rw (full.last_first, set-get s.superbin.metabins 15 m full.last) full
