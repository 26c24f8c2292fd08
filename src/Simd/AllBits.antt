-- ===== src/Simd/AllBits.antt =====
-- simd_common.rs, simd_avx2.rs, simd_sse4_1.rs: `all_bits_set_256` and `all_bits_set_4096`.
pub mod Laws
use hyperion_rust.Common.{
  ℕ, zero, suc, ◌+◌, ◌-◌, ◌*◌, List, [], ◌∷◌, Option, none, some, take, drop, ◌==◌, if◌then◌else◌,
  bit_and, Bool, true, false, not, ◌&&◌,
}
use hyperion_rust.Simd.Lanes.{read_u64, loadu_256, Features}
use hyperion_rust.Simd.FirstBit.{block_at}

-- `_mm256_testc_si256`: 1 if no bit of the second vector is outside the first.
testc : List ℕ → List ℕ → ℕ
testc [] ys = 1
testc (x ∷ xs) [] = 1
testc (x ∷ xs) (y ∷ ys) = let rest = testc xs ys in if bit_and (255 - x) y == 0 then rest else 0

-- `_mm256_set1_epi8(-1)`.
ones_256 : ℕ → List ℕ
ones_256 zero = []
ones_256 (suc n) = 255 ∷ ones_256 n

-- `_mm_test_all_ones`: 1 if the vector has only ones.
test_all_ones : List ℕ → ℕ
test_all_ones [] = 1
test_all_ones (x ∷ xs) = let rest = test_all_ones xs in if x == 255 then rest else 0

pub all_bits_set_256_avx2 : List ℕ → Bool
unfolding testc ones_256
all_bits_set_256_avx2 p = testc (loadu_256 p) (ones_256 32) == 1

pub all_bits_set_256_sse41 : List ℕ → Bool
unfolding test_all_ones
all_bits_set_256_sse41 p =
    bit_and (test_all_ones (take 16 p)) (test_all_ones (take 16 (drop 16 p))) == 1

pub all_bits_set_256_fallback : List ℕ → Bool
all_bits_set_256_fallback p =
    not (read_u64 p 0 == 0)
    && (not (read_u64 p 1 == 0) && (not (read_u64 p 2 == 0) && not (read_u64 p 3 == 0)))

pub all_bits_set_256 : Features → Option (List ℕ) → Bool
all_bits_set_256 c none = false
all_bits_set_256 c (some p) =
    if c.avx2
    then all_bits_set_256_avx2 p
    else if c.sse41
    then all_bits_set_256_sse41 p
    else all_bits_set_256_fallback p

-- `for i in 0..16`, from block `i` with `n` rounds left; after the loop the last block once more
-- (the bytes from 480 on are block 15).
all_blocks : Features → List ℕ → ℕ → ℕ → Bool
all_blocks c p zero i = all_bits_set_256 c (some (block_at p 15))
all_blocks c p (suc n) i =
    let rest = all_blocks c p n (i + 1) in
    if not (all_bits_set_256 c (some (block_at p i))) then false else rest

pub all_bits_set_4096 : Features → List ℕ → Bool
unfolding all_blocks
all_bits_set_4096 c p = all_blocks c p 16 0
