-- ===== src/Simd/Lane16/Laws.antt =====
-- A mask of lanes finds the first lane where the comparison holds.
use hyperion_rust.Common.{
  ℕ, suc, ◌+◌, ◌*◌, ◌/◌, ◌≡◌, refl, ap, ap₂, ◌∙◌, List, [], ◌∷◌, ◌++◌, Option, none, some, ◌==◌,
  if◌then◌else◌, Bool, length, arith, Bool-cases, inl, inr, sym, ◌↔◌,
}
use hyperion_rust.Common.Bits.{trailing_zeros, trailing_zeros-double, trailing_zeros_odd}
use hyperion_rust.Simd.Lanes.{movemask_epi8}
use hyperion_rust.Simd.FirstBit.Spec.{shift, shift-zero, shift-shift}
use hyperion_rust.Simd.Lane16.{lanes}

-- The index of the first element that passes the test.
unfoldable pub find_index : (ℕ → Bool) → List ℕ → Option ℕ
find_index test [] = none
find_index test (x ∷ xs) = if test x then some 0 else shift 1 (find_index test xs)

module _ (test : ℕ → Bool) where
  abbrev pub lane_mask : List ℕ → ℕ
  lane_mask p = movemask_epi8 (lanes test p)

  lane_mask-cons :
      (x : ℕ) (xs : List ℕ) → lane_mask (x ∷ xs) ≡ (if test x then 3 else 0) + 4 * lane_mask xs
  unfolding movemask_epi8 lanes
  lane_mask-cons x xs = ground arith

  -- The search by the mask, at any width that holds it.
  abbrev pub by_lanes : ℕ → ℕ → Option ℕ
  by_lanes w mask = if mask == 0 then none else some (trailing_zeros w mask / 2)

  by_lanes_hit : (w m : ℕ) → by_lanes (suc (suc w)) (3 + 4 * m) ≡ some 0
  by_lanes_hit w m = ground (
    arith,
    trailing_zeros_odd (suc w) (1 + 2 * m),
    ap (trailing_zeros (suc (suc w))) {x = 3 + 4 * m} {y = 1 + 2 * (1 + 2 * m)} (omega arith),
  )

  by_lanes_miss : (w m : ℕ) → by_lanes (suc (suc w)) (0 + 4 * m) ≡ shift 1 (by_lanes w m)
  by_lanes_miss w m = ground (
    arith,
    trailing_zeros-double (suc w) (0 + 2 * m),
    trailing_zeros-double w m,
    ap (trailing_zeros (suc (suc w))) {x = 0 + 4 * m} {y = 0 + 2 * (0 + 2 * m)} (omega arith),
  )

  pub by_lanes-eq :
      (p : List ℕ) (k : ℕ) → by_lanes (length p * 2 + k) (lane_mask p) ≡ find_index test p
  unfolding find_index
  by_lanes-eq [] k = unfold movemask_epi8 lanes in refl
  by_lanes-eq (x ∷ xs) k =
      ap₂ by_lanes {y = suc (suc (length xs * 2 + k))} (omega arith) (lane_mask-cons x xs)
      ∙ elim (Bool-cases (test x)) [
        | inl hit ↦ rw hit (by_lanes_hit (length xs * 2 + k) (lane_mask xs))
        | inr miss ↦
            rw miss
              (by_lanes_miss (length xs * 2 + k) (lane_mask xs) ∙ ap (shift 1) (by_lanes-eq xs k))
      ]

  pub lane_mask_zero_iff : (p : List ℕ) → (lane_mask p ≡ 0) ↔ (find_index test p ≡ none)
  lane_mask_zero_iff p = ground (arith, by_lanes-eq p 0)

  pub find_index-append :
      (xs ys : List ℕ)
      → find_index test (xs ++ ys) ≡ elim (find_index test xs) [
        | none ↦ shift (length xs) (find_index test ys)
        | some i ↦ some i
      ]
  unfolding find_index
  find_index-append [] ys = sym (shift-zero (find_index test ys))
  find_index-append (x ∷ xs) ys = ground (
    arith,
    find_index-append xs ys,
    shift-shift 1 (length xs) (find_index test ys),
    ap (λ n. shift n (find_index test ys)) {x = 1 + length xs} {y = suc (length xs)} (omega arith),
  )
