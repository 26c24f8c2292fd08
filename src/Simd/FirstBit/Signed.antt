-- ===== src/Simd/FirstBit/Signed.antt =====
-- The forms that answer -1 and the forms that answer `None` are the same searches.
use hyperion_rust.Common.{ℕ, zero, suc, ◌+◌, ◌%◌, ◌≡◌, refl, List, Option, none, some, arith}
use hyperion_rust.Simd.Lanes.{Found, at, minus_one, Features}
use hyperion_rust.Simd.FirstBit.{
  block_at, first_word_2, first_word, blocks_2, blocks, get_index_first_set_bit_256_2,
  get_index_first_set_bit_256, get_index_first_set_bit_256_avx2, get_index_first_set_bit_256_avx2_2,
  get_index_first_set_bit_256_sse41, get_index_first_set_bit_256_sse41_2,
  get_index_first_set_bit_256_fallback, get_index_first_set_bit_256_fallback_2,
  get_index_first_set_bit_4096_2, get_index_first_set_bit_4096,
}

abbrev pub to_found : Option ℕ → Found
to_found none = minus_one
to_found (some i) = at i

first_word-eq : (p : List ℕ) (n i : ℕ) → first_word p n i ≡ to_found (first_word_2 p n i)
unfolding first_word first_word_2
first_word-eq p zero i = refl
first_word-eq p (suc n) i = ground (arith, first_word-eq p n (i + 1))

get_index_256-eq :
    (c : Features) (p : Option (List ℕ))
    → get_index_first_set_bit_256 c p ≡ to_found (get_index_first_set_bit_256_2 c p)
unfolding get_index_first_set_bit_256_2 get_index_first_set_bit_256 get_index_first_set_bit_256_avx2
    get_index_first_set_bit_256_avx2_2 get_index_first_set_bit_256_sse41
    get_index_first_set_bit_256_sse41_2 get_index_first_set_bit_256_fallback
    get_index_first_set_bit_256_fallback_2
get_index_256-eq c none = refl
get_index_256-eq c (some p) = ground (arith, first_word-eq p 4 0)

blocks-eq :
    (c : Features) (p : List ℕ) (offset n i : ℕ)
    → blocks c p offset n i ≡ (to_found (blocks_2 c p offset n i).0, (blocks_2 c p offset n i).1)
unfolding blocks blocks_2
blocks-eq c p offset zero i = refl
blocks-eq c p offset (suc n) i = ground (
  arith,
  blocks-eq c p offset n (i + 1),
  get_index_256-eq c (some (block_at p ((i + offset) % 16))),
)

-- The search that answers -1 finds what the one that answers `None` finds, and leaves the same
-- next start.
get_index_first_set_bit_4096-eq :
    (c : Features) (p : List ℕ) (pseudorand : ℕ)
    → let r = get_index_first_set_bit_4096_2 c p pseudorand in
      get_index_first_set_bit_4096 c p pseudorand ≡ (to_found r.0, r.1)
unfolding get_index_first_set_bit_4096 get_index_first_set_bit_4096_2
get_index_first_set_bit_4096-eq c p pseudorand = blocks-eq c p pseudorand 16 0
