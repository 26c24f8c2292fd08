-- ===== src/Simd/Lane16/Agree.antt =====
-- The forms of the 16-lane searches against one another.
use hyperion_rust.Common.{
  ℕ, ◌+◌, ◌*◌, ◌/◌, ◌<◌, ◌≡◌, ◌≢◌, refl, ap, ◌∙◌, List, [], ◌∷◌, Option, none, some, ◌==◌,
  if◌then◌else◌, Bool, not, length, arith, sym, take, drop, take_all, take-append-drop, length-take,
  length-drop, ltb, All,
}
use hyperion_rust.Common.Bits.{trailing_zeros}
use hyperion_rust.Simd.Lanes.{at, Features}
use hyperion_rust.Simd.FirstBit.Spec.{shift, shift-zero, shift-shift}
use hyperion_rust.Simd.FirstBit.Signed.{to_found}
use hyperion_rust.Simd.AllBits.Laws.{HasVectors}
use hyperion_rust.Simd.Lane16.Laws.{find_index, lane_mask, by_lanes, by_lanes-eq, find_index-append}
use hyperion_rust.Simd.Lane16.{
  gt_i16, lanes, testz, find_from, any_equal, sorted_insert_256_avx2_2, sorted_insert_256_avx2,
  sorted_insert_256_sse41_2, sorted_insert_256_sse41, sorted_insert_256_fallback_2,
  sorted_insert_256_fallback, sorted_insert_256_2, sorted_insert_256, index_a_in_b_256,
  a_in_b_256_avx2, a_in_b_256_sse41, a_in_b_256_fallback, a_in_b_256,
}

-- A vector of 16 lanes and its halves, searched at width 32.
module _ (test : ℕ → Bool) (p : List ℕ) (e : length p ≡ 16) where
  whole : by_lanes test 32 (lane_mask test (take 16 p)) ≡ find_index test p
  whole = rw (take_all 16 p (omega arith)) (
      ap (λ w. by_lanes test w (lane_mask test p)) {y = length p * 2 + 0} (omega arith)
      ∙ by_lanes-eq test p 0)

  low : by_lanes test 32 (lane_mask test (take 8 p)) ≡ find_index test (take 8 p)
  low =
      ap (λ w. by_lanes test w (lane_mask test (take 8 p))) {y = length (take 8 p) * 2 + 16}
        (omega (arith, length-take 8 p))
      ∙ by_lanes-eq test (take 8 p) 16

  high : by_lanes test 32 (lane_mask test (take 8 (drop 8 p))) ≡ find_index test (drop 8 p)
  high = rw (take_all 8 (drop 8 p) (omega (arith, length-drop 8 p))) (
      ap (λ w. by_lanes test w (lane_mask test (drop 8 p))) {y = length (drop 8 p) * 2 + 16}
        (omega (arith, length-drop 8 p))
      ∙ by_lanes-eq test (drop 8 p) 16)

  halves : find_index test p ≡ elim (find_index test (take 8 p)) [
    | none ↦ shift 8 (find_index test (drop 8 p))
    | some i ↦ some i
  ]
  halves =
      ap (find_index test) (sym (take-append-drop 8 p))
      ∙ find_index-append test (take 8 p) (drop 8 p)
      ∙ ap (λ n. join n (find_index test (take 8 p))) {y = 8} (omega (arith, length-take 8 p))
    where
      join : ℕ → Option ℕ → Option ℕ
      join n o = elim o [ none ↦ shift n (find_index test (drop 8 p)) | some i ↦ some i ]

-- The two halves answer in order.
in_order :
    (w : ℕ) (test : ℕ → Bool) (m1 m2 : ℕ) (o1 o2 : Option ℕ)
    → by_lanes test w m1 ≡ o1
    → by_lanes test w m2 ≡ o2
    → (if not (m1 == 0)
        then some (trailing_zeros w m1 / 2)
        else if not (m2 == 0)
        then some (8 + trailing_zeros w m2 / 2)
        else none)
      ≡ elim o1 [ none ↦ shift 8 o2 | some i ↦ some i ]
in_order w test m1 m2 o1 o2 a b = ground arith

module _ (a : ℕ) (p : List ℕ) (e : length p ≡ 16) where
  sorted_avx2-eq : sorted_insert_256_avx2_2 a p ≡ find_index (λ x. gt_i16 x a) p
  unfolding sorted_insert_256_avx2_2
  sorted_avx2-eq = whole (λ x. gt_i16 x a) p e

  sorted_sse41-eq : sorted_insert_256_sse41_2 a p ≡ find_index (λ x. gt_i16 x a) p
  unfolding sorted_insert_256_sse41_2
  sorted_sse41-eq =
      let test = λ (x : ℕ). gt_i16 x a in
      in_order 32 test _ _ _ _ (low test p e) (high test p e) ∙ sym (halves test p e)

  -- With AVX2 or SSE4.1, the search of a ring of 16 entries for the place of an id answers with
  -- the first entry that is greater as an `i16`; so the two forms agree.
  pub sorted_insert_256_2-eq :
      (c : Features)
      → HasVectors c
      → sorted_insert_256_2 c a (some p) ≡ find_index (λ x. gt_i16 x a) p
  unfolding sorted_insert_256_2
  sorted_insert_256_2-eq c v = ground (arith, sorted_avx2-eq, sorted_sse41-eq)

-- The form that answers -1 finds what the form that answers `None` finds.
pub sorted_insert_256-eq :
    (c : Features) (a : ℕ) (b : Option (List ℕ))
    → sorted_insert_256 c a b ≡ to_found (sorted_insert_256_2 c a b)
unfolding sorted_insert_256 sorted_insert_256_2 sorted_insert_256_avx2 sorted_insert_256_avx2_2
    sorted_insert_256_sse41 sorted_insert_256_sse41_2 sorted_insert_256_fallback
    sorted_insert_256_fallback_2
sorted_insert_256-eq c a none = refl
sorted_insert_256-eq c a (some b) = ground arith

-- On words below 2 ^ 15 the signed comparison is the plain one.
pub gt_i16_small : (x a : ℕ) → x < 32768 → a < 32768 → gt_i16 x a ≡ ltb a x
unfolding gt_i16
gt_i16_small x a h k = ground arith

abbrev answer : ℕ → Option (ℕ × ℕ) → Option ℕ
answer a o = elim o [ none ↦ none | some (i, x) ↦ if not (a == x) then some i else none ]

find_from-eq :
    (a i : ℕ) (p : List ℕ)
    → a < 32768
    → All (λ x. (x < 32768) × (x ≢ a)) p
    → answer a (find_from a p i) ≡ shift i (find_index (λ x. gt_i16 x a) p)
unfolding find_from find_index
find_from-eq a i [] h k = refl
find_from-eq a i (x ∷ xs) h k = ground (
  arith,
  gt_i16_small x a k.0.0 h,
  find_from-eq a (i + 1) xs h k.1,
  shift-shift i 1 (find_index (λ y. gt_i16 y a) xs),
)

-- On a ring of 16 ids below 32768 that lacks the id, itself below 32768, every form answers the
-- same: the index of the first greater entry.
sorted_insert_256_2_absent :
    (c : Features) (a : ℕ) (p : List ℕ)
    → length p ≡ 16
    → a < 32768
    → All (λ x. (x < 32768) × (x ≢ a)) p
    → sorted_insert_256_2 c a (some p) ≡ find_index (λ x. gt_i16 x a) p
unfolding sorted_insert_256_2 sorted_insert_256_fallback_2
sorted_insert_256_2_absent c a p e h k = ground (
  arith,
  sorted_avx2-eq a p e,
  sorted_sse41-eq a p e,
  take_all 16 p (omega arith),
  ap (λ q. answer a (find_from a q 0)) (take_all 16 p (omega arith)),
  find_from-eq a 0 p h k,
  shift-zero (find_index (λ x. gt_i16 x a) p),
)

testz-eq :
    (test : ℕ → Bool) (p : List ℕ)
    → testz (lanes test p) ≡ elim (find_index test p) [ none ↦ 1 | some i ↦ 0 ]
unfolding testz lanes find_index
testz-eq test [] = refl
testz-eq test (x ∷ xs) = ground (arith, testz-eq test xs)

abbrev pub found_or_not : Option ℕ → ℕ
found_or_not o = elim o [ none ↦ 0 | some i ↦ 1 ]

any_equal-eq :
    (a : ℕ) (p : List ℕ)
    → found_or_not (find_index (λ x. x == a) p) ≡ (if any_equal a p then 1 else 0)
unfolding any_equal find_index
any_equal-eq a [] = refl
any_equal-eq a (x ∷ xs) = ground (arith, any_equal-eq a xs)

module _ (a : ℕ) (p : List ℕ) (e : length p ≡ 16) where
  abbrev equal : ℕ → Bool
  equal x = x == a

  index_a_in_b-eq : index_a_in_b_256 a p ≡ to_found (find_index equal p)
  unfolding index_a_in_b_256
  index_a_in_b-eq = ground (arith, whole equal p e)

  in_avx2-eq : a_in_b_256_avx2 a p ≡ found_or_not (find_index equal p)
  unfolding a_in_b_256_avx2
  in_avx2-eq = ground (arith, index_a_in_b-eq)

  in_sse41-eq : a_in_b_256_sse41 a p ≡ found_or_not (find_index equal p)
  unfolding a_in_b_256_sse41
  in_sse41-eq = ground (
    arith,
    testz-eq equal (take 8 p),
    testz-eq equal (drop 8 p),
    ap (λ q. testz (lanes equal q)) (take_all 8 (drop 8 p) (omega (arith, length-drop 8 p))),
    halves equal p e,
  )

  in_fallback-eq : a_in_b_256_fallback a p ≡ found_or_not (find_index equal p)
  unfolding a_in_b_256_fallback
  in_fallback-eq = rw (take_all 16 p (omega arith)) (sym (any_equal-eq a p))

  -- On 16 entries, every form of the membership test answers 1 if the word is among them and 0 if
  -- not, and the search for its index answers with the first place.
  a_in_b_256-eq :
      (c : Features)
      → (a_in_b_256 c a (some p) ≡ at (found_or_not (find_index equal p)))
        × (index_a_in_b_256 a p ≡ to_found (find_index equal p))
  unfolding a_in_b_256
  a_in_b_256-eq c = (ground (arith, in_avx2-eq, in_sse41-eq, in_fallback-eq), index_a_in_b-eq)
