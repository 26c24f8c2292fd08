-- ===== src/Simd/Lane16.antt =====
-- simd_common.rs, simd_avx2.rs, simd_sse4_1.rs: the searches over sixteen 16-bit lanes,
-- `sorted_insert_256` and `a_in_b_256` with their forms, and `index_a_in_b_256`.
pub mod Laws
pub mod Agree
use hyperion_rust.Common.{
  ℕ, zero, suc, ◌+◌, ◌*◌, ◌/◌, ◌%◌, List, [], ◌∷◌, Option, none, some, take, drop, ◌==◌, ltb, leb,
  if◌then◌else◌, Bool, true, false, not, ◌||◌,
}
use hyperion_rust.Common.Bits.{trailing_zeros}
use hyperion_rust.Simd.Lanes.{movemask_epi8, Found, at, minus_one, Features}

-- `x > y` on 16-bit words read as `i16`.
pub gt_i16 : ℕ → ℕ → Bool
gt_i16 x y = ltb ((y + 32768) % 65536) ((x + 32768) % 65536)

-- The bytes of a lane-wise comparison: two bytes 0xFF where it holds, else two bytes 0.
unfoldable pub lanes : (ℕ → Bool) → List ℕ → List ℕ
lanes test [] = []
lanes test (x ∷ xs) = (if test x then 255 else 0) ∷ (if test x then 255 else 0) ∷ lanes test xs

-- `_mm256_cmpgt_epi16` and `_mm256_cmpeq_epi16` with a vector of equal lanes, and their 128-bit
-- forms on half of the lanes.
abbrev pub cmpgt_epi16 : List ℕ → ℕ → List ℕ
cmpgt_epi16 p a = lanes (λ x. gt_i16 x a) p

abbrev pub cmpeq_epi16 : List ℕ → ℕ → List ℕ
cmpeq_epi16 p a = lanes (λ x. x == a) p

-- `_mm_testz_si128(v, v)`: 1 if the vector is 0.
pub testz : List ℕ → ℕ
testz [] = 1
testz (b ∷ bs) = if b == 0 then testz bs else 0

pub sorted_insert_256_avx2_2 : ℕ → List ℕ → Option ℕ
sorted_insert_256_avx2_2 a p =
    let bitmask = movemask_epi8 (cmpgt_epi16 (take 16 p) a) in
    if bitmask == 0 then none else some (trailing_zeros 32 bitmask / 2)

pub sorted_insert_256_avx2 : ℕ → List ℕ → Found
sorted_insert_256_avx2 a p =
    let bitmask = movemask_epi8 (cmpgt_epi16 (take 16 p) a) in
    if bitmask == 0 then minus_one else at (trailing_zeros 32 bitmask / 2)

pub sorted_insert_256_sse41_2 : ℕ → List ℕ → Option ℕ
sorted_insert_256_sse41_2 a p =
    let bitmask1 = movemask_epi8 (cmpgt_epi16 (take 8 p) a) in
    let bitmask2 = movemask_epi8 (cmpgt_epi16 (take 8 (drop 8 p)) a) in
    if not (bitmask1 == 0)
    then some (trailing_zeros 32 bitmask1 / 2)
    else if not (bitmask2 == 0)
    then some (8 + trailing_zeros 32 bitmask2 / 2)
    else none

pub sorted_insert_256_sse41 : ℕ → List ℕ → Found
sorted_insert_256_sse41 a p =
    let bitmask1 = movemask_epi8 (cmpgt_epi16 (take 8 p) a) in
    let bitmask2 = movemask_epi8 (cmpgt_epi16 (take 8 (drop 8 p)) a) in
    if not (bitmask1 == 0)
    then at (trailing_zeros 32 bitmask1 / 2)
    else if not (bitmask2 == 0)
    then at (8 + trailing_zeros 32 bitmask2 / 2)
    else minus_one

-- `(0..16).find(|&i| a <= p[i])` with the element found, from index `i` on.
find_from : ℕ → List ℕ → ℕ → Option (ℕ × ℕ)
find_from a [] i = none
find_from a (x ∷ xs) i = if leb a x then some (i, x) else find_from a xs (i + 1)

pub sorted_insert_256_fallback_2 : ℕ → List ℕ → Option ℕ
unfolding find_from
sorted_insert_256_fallback_2 a p = elim (find_from a (take 16 p) 0) [
  | none ↦ none
  | some (i, x) ↦ if not (a == x) then some i else none
]

pub sorted_insert_256_fallback : ℕ → List ℕ → Found
unfolding find_from
sorted_insert_256_fallback a p = elim (find_from a (take 16 p) 0) [
  | none ↦ minus_one
  | some (i, x) ↦ if not (a == x) then at i else minus_one
]

pub sorted_insert_256_2 : Features → ℕ → Option (List ℕ) → Option ℕ
sorted_insert_256_2 c a none = none
sorted_insert_256_2 c a (some b) =
    if c.avx2
    then sorted_insert_256_avx2_2 a b
    else if c.sse41
    then sorted_insert_256_sse41_2 a b
    else sorted_insert_256_fallback_2 a b

pub sorted_insert_256 : Features → ℕ → Option (List ℕ) → Found
sorted_insert_256 c a none = minus_one
sorted_insert_256 c a (some b) =
    if c.avx2
    then sorted_insert_256_avx2 a b
    else if c.sse41
    then sorted_insert_256_sse41 a b
    else sorted_insert_256_fallback a b

pub index_a_in_b_256 : ℕ → List ℕ → Found
index_a_in_b_256 a p =
    let bitmask = movemask_epi8 (cmpeq_epi16 (take 16 p) a) in
    if bitmask == 0 then minus_one else at (trailing_zeros 32 bitmask / 2)

pub a_in_b_256_avx2 : ℕ → List ℕ → ℕ
unfolding index_a_in_b_256
a_in_b_256_avx2 a p = elim (index_a_in_b_256 a p) [ minus_one ↦ 0 | at i ↦ 1 ]

pub a_in_b_256_sse41 : ℕ → List ℕ → ℕ
unfolding testz
a_in_b_256_sse41 a p =
    if testz (cmpeq_epi16 (take 8 p) a) == 1
    then if testz (cmpeq_epi16 (take 8 (drop 8 p)) a) == 0 then 1 else 0
    else 1

any_equal : ℕ → List ℕ → Bool
any_equal a [] = false
any_equal a (x ∷ xs) = x == a || any_equal a xs

pub a_in_b_256_fallback : ℕ → List ℕ → ℕ
unfolding any_equal
a_in_b_256_fallback a p = if any_equal a (take 16 p) then 1 else 0

pub a_in_b_256 : Features → ℕ → Option (List ℕ) → Found
a_in_b_256 c a none = minus_one
a_in_b_256 c a (some b) = at (
    if c.avx2
    then a_in_b_256_avx2 a b
    else if c.sse41
    then a_in_b_256_sse41 a b
    else a_in_b_256_fallback a b)
