-- ===== src/Tests/Vectors.antt =====
-- Uses of the theorems on the vector searches.
use hyperion_rust.Common.{ℕ, ◌≡◌, ◌≢◌, refl, List, ◌∷◌, some, true, false, All, arith, replicate}
use hyperion_rust.Common.Lists.{All-replicate}
use hyperion_rust.Simd.Lanes.{IsByte, read_u64, word_of}
use hyperion_rust.Simd.FirstBit.{get_index_first_set_bit_256_2, get_index_first_set_bit_4096_2}
use hyperion_rust.Simd.FirstBit.Spec.{IsFirstSet}
use hyperion_rust.Simd.FirstBit.Agree.{get_index_first_set_bit_256_2-IsFirstSet}
use hyperion_rust.Simd.FirstBit.Blocks.{IsSetIn, get_index_first_set_bit_4096_2-IsSetIn}
use hyperion_rust.Simd.AllBits.{all_bits_set_256_fallback, all_bits_set_256_avx2}
use hyperion_rust.Simd.AllBits.Laws.{AllOnes, all_bits_set_256_fallback_differs}
use hyperion_rust.Simd.Lane16.{gt_i16, sorted_insert_256_2}
use hyperion_rust.Simd.Lane16.Laws.{find_index}
use hyperion_rust.Simd.Lane16.Agree.{sorted_insert_256_2-eq}
use hyperion_rust.Tests.{sse_only, block, mask_512}

block-IsByte : All IsByte block
block-IsByte = (omega arith, (omega arith, All-replicate IsByte 30 0 (omega arith)))

mask_512-IsByte : All IsByte mask_512
mask_512-IsByte = (omega arith, (omega arith, All-replicate IsByte 510 0 (omega arith)))

get_index_first_set_bit_256_2-IsFirstSet_example :
    IsFirstSet block (get_index_first_set_bit_256_2 sse_only (some block))
get_index_first_set_bit_256_2-IsFirstSet_example =
    get_index_first_set_bit_256_2-IsFirstSet sse_only block block-IsByte refl

get_index_first_set_bit_4096_2-IsSetIn_example :
    IsSetIn mask_512
      (get_index_first_set_bit_4096_2 sse_only mask_512 5).0
      (get_index_first_set_bit_4096_2 sse_only mask_512 5).1
get_index_first_set_bit_4096_2-IsSetIn_example =
    get_index_first_set_bit_4096_2-IsSetIn sse_only mask_512 mask_512-IsByte refl 5

-- Every byte is 1.
abbrev sparse : List ℕ
sparse = replicate 32 1

sparse_words :
    (read_u64 sparse 0 ≢ 0)
    × (read_u64 sparse 1 ≢ 0)
    × (read_u64 sparse 2 ≢ 0)
    × (read_u64 sparse 3 ≢ 0)
unfolding word_of
sparse_words = (omega arith, omega arith, omega arith, omega arith)

sparse_partial : ¬ AllOnes sparse
sparse_partial (h, _) = omega (arith, h)

all_bits_set_256_fallback_differs_example :
    (all_bits_set_256_fallback sparse ≡ true) × (all_bits_set_256_avx2 sparse ≡ false)
all_bits_set_256_fallback_differs_example =
    all_bits_set_256_fallback_differs sparse (All-replicate IsByte 32 1 (omega arith)) refl
      sparse_words.0 sparse_words.1 sparse_words.2 sparse_words.3 sparse_partial

-- A ring that lacks 5.
abbrev ring : List ℕ
ring = 1 ∷ 3 ∷ replicate 14 9

sorted_insert_256_2-eq_example :
    sorted_insert_256_2 sse_only 5 (some ring) ≡ find_index (λ x. gt_i16 x 5) ring
sorted_insert_256_2-eq_example = sorted_insert_256_2-eq 5 ring refl sse_only refl
