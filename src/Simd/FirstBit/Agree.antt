-- ===== src/Simd/FirstBit/Agree.antt =====
-- The three forms of `get_index_first_set_bit_256` compute the least set bit of their block.
use hyperion_rust.Common.{
  ℕ, zero, suc, ◌+◌, ◌-◌, ◌*◌, ◌^◌, ◌<◌, ◌≤◌, ◌≡◌, refl, ap, ◌∙◌, List, [], ◌∷◌, ◌++◌, Option, none,
  some, get_or, length, All, ◌==◌, if◌then◌else◌, arith, Bool-cases, inl, inr, sym, subst, take,
  drop, take_all, drop_all, length-take, length-drop, take-append-drop, drop-drop, All-take,
  All-drop,
}
use hyperion_rust.Common.Bits.{
  trailing_zeros, trailing_zeros-add, trailing_zeros-double, trailing_zeros_odd,
}
use native.Mathlib.Nat.{pow-suc}
use hyperion_rust.Simd.Lanes.{IsByte, word_of, cmpeq_zero_epi8, movemask_epi8, Features}
use hyperion_rust.Simd.FirstBit.Spec.{
  first_set, shift, shift-zero, shift-shift, IsFirstSet, first_set-IsFirstSet,
}
use hyperion_rust.Simd.FirstBit.{
  get_index_first_set_bit_256_avx2_2, get_index_first_set_bit_256_sse41_2,
  get_index_first_set_bit_256_fallback_2, get_index_first_set_bit_256_2, first_word_2,
}

-- The bytes that are not zero, as a mask.
abbrev zero_mask : List ℕ → ℕ
zero_mask bs = movemask_epi8 (cmpeq_zero_epi8 bs)

abbrev byte_mask : List ℕ → ℕ
byte_mask bs = 2 ^ length bs - 1 - zero_mask bs

zero_mask-lt : (bs : List ℕ) → zero_mask bs < 2 ^ length bs
unfolding movemask_epi8 cmpeq_zero_epi8
zero_mask-lt [] = omega arith
zero_mask-lt (b ∷ bs) = ground (arith, zero_mask-lt bs, pow-suc 2 (length bs))

byte_mask-cons :
    (b : ℕ) (bs : List ℕ) → byte_mask (b ∷ bs) ≡ (if b == 0 then 0 else 1) + 2 * byte_mask bs
unfolding movemask_epi8 cmpeq_zero_epi8
byte_mask-cons b bs = ground (arith, zero_mask-lt bs, pow-suc 2 (length bs))

-- What the AVX2 form computes from its mask, for a block of any length.
by_mask : List ℕ → ℕ → Option ℕ
by_mask bs mask =
    let k = trailing_zeros (length bs) mask in
    if mask == 0 then none else some (k * 8 + trailing_zeros 8 (get_or bs k 0))

by_mask_even : (b : ℕ) (bs : List ℕ) (m : ℕ) → by_mask (b ∷ bs) (0 + 2 * m) ≡ shift 8 (by_mask bs m)
unfolding by_mask
by_mask_even b bs m = ground (
  arith,
  trailing_zeros-double (length bs) m,
  ap (λ k. get_or (b ∷ bs) k 0) (trailing_zeros-double (length bs) m),
)

by_mask_odd :
    (b : ℕ) (bs : List ℕ) (m : ℕ) → by_mask (b ∷ bs) (1 + 2 * m) ≡ some (trailing_zeros 8 b)
unfolding by_mask
by_mask_odd b bs m = ground (
  arith,
  trailing_zeros_odd (length bs) m,
  ap (λ k. get_or (b ∷ bs) k 0) (trailing_zeros_odd (length bs) m),
)

by_mask-eq-first_set : (bs : List ℕ) → by_mask bs (byte_mask bs) ≡ first_set bs
unfolding by_mask first_set movemask_epi8 cmpeq_zero_epi8
by_mask-eq-first_set [] = refl
by_mask-eq-first_set (b ∷ bs) = elim (Bool-cases (b == 0)) [
  | inl e ↦
      rw (byte_mask-cons b bs)
        (rw e (by_mask_even b bs (byte_mask bs) ∙ ap (shift 8) (by_mask-eq-first_set bs)))
  | inr e ↦ rw (byte_mask-cons b bs) (rw e (by_mask_odd b bs (byte_mask bs)))
]

-- The AVX2 form reads 32 bytes.
pub avx2-eq-first_set :
    (p : List ℕ) → length p ≡ 32 → get_index_first_set_bit_256_avx2_2 p ≡ first_set p
unfolding get_index_first_set_bit_256_avx2_2 by_mask
avx2-eq-first_set p h =
    rw (take_all 32 p (omega arith)) (subst (λ n. scan n ≡ first_set p) h (by_mask-eq-first_set p))
  where
    scan : ℕ → Option ℕ
    scan n =
        let mask = 2 ^ n - 1 - zero_mask p in
        let k = trailing_zeros n mask in
        if mask == 0 then none else some (k * 8 + trailing_zeros 8 (get_or p k 0))

-- The words of the SSE4.1 and plain forms.
first_set-append :
    (xs ys : List ℕ)
    → All IsByte xs
    → first_set (xs ++ ys) ≡ (
        if word_of xs == 0
        then shift (length xs * 8) (first_set ys)
        else some (trailing_zeros (length xs * 8) (word_of xs)))
unfolding first_set word_of
first_set-append [] ys h = sym (shift-zero (first_set ys))
first_set-append (x ∷ xs) ys h = ground (
  arith,
  first_set-append xs ys h.1,
  trailing_zeros-add 8 (length xs * 8) x (word_of xs) h.0,
  ap (λ n. trailing_zeros n (x + 256 * word_of xs)) width,
  shift-shift 8 (length xs * 8) (first_set ys),
  ap (λ n. shift n (first_set ys)) width,
)
  where
    width : suc (length xs) * 8 ≡ 8 + length xs * 8
    width = omega arith

first_set-word :
    (q : List ℕ)
    → All IsByte q
    → 8 ≤ length q
    → first_set q ≡ (
        if word_of (take 8 q) == 0
        then shift 64 (first_set (drop 8 q))
        else some (trailing_zeros 64 (word_of (take 8 q))))
first_set-word q h e =
    ap first_set (sym (take-append-drop 8 q))
    ∙ subst (λ n. first_set (take 8 q ++ drop 8 q) ≡ choose (n * 8)) width
        (first_set-append (take 8 q) (drop 8 q) (All-take IsByte 8 q h))
  where
    choose : ℕ → Option ℕ
    choose n =
        if word_of (take 8 q) == 0
        then shift n (first_set (drop 8 q))
        else some (trailing_zeros n (word_of (take 8 q)))

    width : length (take 8 q) ≡ 8
    width = omega (arith, length-take 8 q)

-- `n` rounds from word `i` on search the rest of the block.
first_word_2-eq :
    (p : List ℕ) (n i : ℕ)
    → All IsByte p
    → length p ≡ (i + n) * 8
    → first_word_2 p n i ≡ shift (i * 64) (first_set (drop (i * 8) p))
unfolding first_word_2
first_word_2-eq p zero i h e = rw (drop_all (i * 8) p (omega arith)) (unfold first_set in refl)
first_word_2-eq p (suc n) i h e = ground (
  arith,
  first_word_2-eq p n (i + 1) h (omega arith),
  first_set-word (drop (i * 8) p) (All-drop IsByte (i * 8) p h)
      (omega (arith, length-drop (i * 8) p)),
  shift-shift (i * 64) 64 (first_set (drop 8 (drop (i * 8) p))),
  ap first_set (drop-drop 8 (i * 8) p),
  ap (λ k. first_set (drop k p)) next,
)
  where
    next : i * 8 + 8 ≡ (i + 1) * 8
    next = omega arith

first_words-eq-first_set :
    (p : List ℕ) → All IsByte p → length p ≡ 32 → first_word_2 p 4 0 ≡ first_set p
first_words-eq-first_set p h e = first_word_2-eq p 4 0 h e ∙ shift-zero (first_set p)

-- Whatever the processor's features, the search of a 32-byte block answers with its least set
-- bit; so the three forms agree.
pub get_index_first_set_bit_256_2-eq-first_set :
    (c : Features) (p : List ℕ)
    → All IsByte p
    → length p ≡ 32
    → get_index_first_set_bit_256_2 c (some p) ≡ first_set p
unfolding get_index_first_set_bit_256_2 get_index_first_set_bit_256_sse41_2
    get_index_first_set_bit_256_fallback_2
get_index_first_set_bit_256_2-eq-first_set c p h e =
    ground (arith, avx2-eq-first_set p e, first_words-eq-first_set p h e)

-- The search of a 32-byte block finds its least set bit, and nothing only if all 256 are clear.
pub get_index_first_set_bit_256_2-IsFirstSet :
    (c : Features) (p : List ℕ)
    → All IsByte p
    → length p ≡ 32
    → IsFirstSet p (get_index_first_set_bit_256_2 c (some p))
get_index_first_set_bit_256_2-IsFirstSet c p h e =
    rw (get_index_first_set_bit_256_2-eq-first_set c p h e) (first_set-IsFirstSet p h)
