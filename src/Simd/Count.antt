-- ===== src/Simd/Count.antt =====
-- simd_common.rs: `count_set_bits`.
use hyperion_rust.Common.{
  ℕ, zero, suc, ◌+◌, ◌*◌, ◌≤◌, ◌≡◌, refl, ap, List, [], ◌∷◌, ◌++◌, take, drop, ◌↔◌, All, length,
  arith, subst, length-take, length-drop, All-take, All-drop, drop_all, drop-drop, take-append-drop,
}
use hyperion_rust.Common.Bits.{count_ones, count_ones-add, count_ones-le, byte_of_ones}
use hyperion_rust.Simd.Lanes.{IsByte, read_u64, word_of}
use hyperion_rust.Simd.AllBits.Laws.{AllOnes}

-- The sum over the words from word `i` on, with `n` words left. The prefetch has no effect.
sum_words : List ℕ → ℕ → ℕ → ℕ
sum_words p zero i = 0
sum_words p (suc n) i = count_ones 64 (read_u64 p i) + sum_words p n (i + 1)

unfoldable pub count_set_bits : List ℕ → ℕ
unfolding sum_words
count_set_bits p = sum_words p 64 0

-- The ones of all bytes.
unfoldable pub ones : List ℕ → ℕ
ones [] = 0
ones (b ∷ bs) = count_ones 8 b + ones bs

ones-append : (xs ys : List ℕ) → ones (xs ++ ys) ≡ ones xs + ones ys
unfolding ones
ones-append [] ys = omega arith
ones-append (x ∷ xs) ys = omega (arith, ones-append xs ys)

count_ones-word_of :
    (xs : List ℕ) → All IsByte xs → count_ones (length xs * 8) (word_of xs) ≡ ones xs
unfolding ones word_of count_ones
count_ones-word_of [] h = refl
count_ones-word_of (x ∷ xs) h = omega (
  arith,
  ap (λ n. count_ones n (x + 256 * word_of xs)) width,
  count_ones-add 8 (length xs * 8) x (word_of xs) h.0,
  count_ones-word_of xs h.1,
)
  where
    width : suc (length xs) * 8 ≡ 8 + length xs * 8
    width = omega arith

sum_words-eq :
    (p : List ℕ) (n i : ℕ)
    → All IsByte p
    → length p ≡ (i + n) * 8
    → sum_words p n i ≡ ones (drop (i * 8) p)
unfolding sum_words
sum_words-eq p zero i h e = rw (drop_all (i * 8) p (omega arith)) (unfold ones in refl)
sum_words-eq p (suc n) i h e = omega (
  arith,
  sum_words-eq p n (i + 1) h (omega arith),
  subst (λ k. count_ones (k * 8) (read_u64 p i) ≡ ones word) width
      (count_ones-word_of word (All-take IsByte 8 _ (All-drop IsByte (i * 8) p h))),
  ap ones (take-append-drop 8 (drop (i * 8) p)),
  ones-append word (drop 8 (drop (i * 8) p)),
  ap ones (drop-drop 8 (i * 8) p),
  ap (λ k. ones (drop k p)) next,
)
  where
    word : List ℕ
    word = take 8 (drop (i * 8) p)

    width : length word ≡ 8
    width = omega (arith, length-take 8 (drop (i * 8) p), length-drop (i * 8) p)

    next : i * 8 + 8 ≡ (i + 1) * 8
    next = omega arith

-- The count over the 64 words of the mask is the count over its 512 bytes.
pub count_set_bits-eq-ones :
    (p : List ℕ) → All IsByte p → length p ≡ 512 → count_set_bits p ≡ ones p
unfolding count_set_bits
count_set_bits-eq-ones p h e = sum_words-eq p 64 0 h e

pub ones-le : (p : List ℕ) → ones p ≤ length p * 8
unfolding ones
ones-le [] = omega arith
ones-le (b ∷ bs) = omega (arith, count_ones-le 8 b, ones-le bs)

ones_full : (p : List ℕ) → All IsByte p → ones p ≡ length p * 8 → AllOnes p
unfolding ones
ones_full [] h e = tt
ones_full (b ∷ bs) h e = (
  byte_of_ones b h.0 (omega (arith, count_ones-le 8 b, ones-le bs)),
  ones_full bs h.1 (omega (arith, count_ones-le 8 b, ones-le bs)),
)

ones_of_full : (p : List ℕ) → AllOnes p → ones p ≡ length p * 8
unfolding ones count_ones
ones_of_full [] o = refl
ones_of_full (b ∷ bs) o = omega (arith, ap (count_ones 8) o.0, ones_of_full bs o.1)

-- The count of the set bits of 512 bytes is 4096 exactly when every byte is 0xFF, and never more.
pub count_set_bits_full :
    (p : List ℕ)
    → All IsByte p
    → length p ≡ 512
    → (count_set_bits p ≤ 4096) × ((count_set_bits p ≡ 4096) ↔ AllOnes p)
count_set_bits_full p h e = (
  omega (arith, count_set_bits-eq-ones p h e, ones-le p),
  (
    λ c. ones_full p h (omega (arith, count_set_bits-eq-ones p h e)),
    λ o. omega (arith, count_set_bits-eq-ones p h e, ones_of_full p o),
  ),
)
