-- ===== src/Simd/FirstBit.antt =====
-- simd_common.rs, simd_avx2.rs, simd_sse4_1.rs: `get_index_first_set_bit_256` and
-- `get_index_first_set_bit_4096` with their `_2` forms. A null pointer is `none`.
pub mod Spec
pub mod Agree
pub mod Blocks
pub mod Signed
use hyperion_rust.Common.{
  ℕ, zero, suc, ◌+◌, ◌*◌, ◌%◌, List, Option, none, some, get_or, take, drop, ◌==◌, if◌then◌else◌,
}
use hyperion_rust.Common.Bits.{trailing_zeros}
use hyperion_rust.Simd.Lanes.{
  read_u64, loadu_256, cmpeq_zero_epi8, movemask_epi8, not_u32, Found, at, minus_one, Features,
}

-- The byte where the search of the AVX2 forms ends, and the bit in it.
bit_in_byte : List ℕ → ℕ → ℕ
bit_in_byte p bitmask =
    let byte_index = trailing_zeros 32 bitmask in
    byte_index * 8 + trailing_zeros 8 (get_or p byte_index 0)

pub get_index_first_set_bit_256_avx2_2 : List ℕ → Option ℕ
unfolding bit_in_byte
get_index_first_set_bit_256_avx2_2 p =
    let bitmask = not_u32 (movemask_epi8 (cmpeq_zero_epi8 (loadu_256 p))) in
    if bitmask == 0 then none else some (bit_in_byte p bitmask)

pub get_index_first_set_bit_256_avx2 : List ℕ → Found
unfolding bit_in_byte
get_index_first_set_bit_256_avx2 p =
    let bitmask = not_u32 (movemask_epi8 (cmpeq_zero_epi8 (loadu_256 p))) in
    if bitmask == 0 then minus_one else at (bit_in_byte p bitmask)

-- `for i in 0..4`, at index `i` with `n` rounds left. `_mm_tzcnt_64` is `trailing_zeros` on u64.
first_word_2 : List ℕ → ℕ → ℕ → Option ℕ
first_word_2 p zero i = none
first_word_2 p (suc n) i =
    let rest = first_word_2 p n (i + 1) in
    let val = read_u64 p i in if val == 0 then rest else some (i * 64 + trailing_zeros 64 val)

first_word : List ℕ → ℕ → ℕ → Found
first_word p zero i = minus_one
first_word p (suc n) i =
    let rest = first_word p n (i + 1) in
    let val = read_u64 p i in if val == 0 then rest else at (i * 64 + trailing_zeros 64 val)

pub get_index_first_set_bit_256_sse41_2 : List ℕ → Option ℕ
unfolding first_word_2
get_index_first_set_bit_256_sse41_2 p = first_word_2 p 4 0

pub get_index_first_set_bit_256_sse41 : List ℕ → Found
unfolding first_word
get_index_first_set_bit_256_sse41 p = first_word p 4 0

pub get_index_first_set_bit_256_fallback_2 : List ℕ → Option ℕ
unfolding first_word_2
get_index_first_set_bit_256_fallback_2 p = first_word_2 p 4 0

pub get_index_first_set_bit_256_fallback : List ℕ → Found
unfolding first_word
get_index_first_set_bit_256_fallback p = first_word p 4 0

pub get_index_first_set_bit_256_2 : Features → Option (List ℕ) → Option ℕ
get_index_first_set_bit_256_2 c none = none
get_index_first_set_bit_256_2 c (some p) =
    if c.avx2
    then get_index_first_set_bit_256_avx2_2 p
    else if c.sse41
    then get_index_first_set_bit_256_sse41_2 p
    else get_index_first_set_bit_256_fallback_2 p

pub get_index_first_set_bit_256 : Features → Option (List ℕ) → Found
get_index_first_set_bit_256 c none = minus_one
get_index_first_set_bit_256 c (some p) =
    if c.avx2
    then get_index_first_set_bit_256_avx2 p
    else if c.sse41
    then get_index_first_set_bit_256_sse41 p
    else get_index_first_set_bit_256_fallback p

-- The 32 bytes at `p_4096.add(block * 32)`.
abbrev pub block_at : List ℕ → ℕ → List ℕ
block_at p block = take 32 (drop (block * 32) p)

-- `for i in 0..16` from the static `PSEUDORAND`, whose new value is the second result. The block
-- is `(i + offset) & 15`, the remainder by 16; `PSEUDORAND` is 0 or a block number.
blocks_2 : Features → List ℕ → ℕ → ℕ → ℕ → Option ℕ × ℕ
blocks_2 c p offset zero i = (none, 0)
blocks_2 c p offset (suc n) i =
    let rest = blocks_2 c p offset n (i + 1) in
    let block = (i + offset) % 16 in
    elim (get_index_first_set_bit_256_2 c (some (block_at p block))) [
      | none ↦ rest
      | some res ↦ (some (block * 256 + res), block)
    ]

pub get_index_first_set_bit_4096_2 : Features → List ℕ → ℕ → Option ℕ × ℕ
unfolding blocks_2
get_index_first_set_bit_4096_2 c p pseudorand = blocks_2 c p pseudorand 16 0

blocks : Features → List ℕ → ℕ → ℕ → ℕ → Found × ℕ
blocks c p offset zero i = (minus_one, 0)
blocks c p offset (suc n) i =
    let rest = blocks c p offset n (i + 1) in
    let block = (i + offset) % 16 in
    elim (get_index_first_set_bit_256 c (some (block_at p block))) [
      | minus_one ↦ rest
      | at res ↦ (at (block * 256 + res), block)
    ]

pub get_index_first_set_bit_4096 : Features → List ℕ → ℕ → Found × ℕ
unfolding blocks
get_index_first_set_bit_4096 c p pseudorand = blocks c p pseudorand 16 0
