-- ===== src/Simd/FirstBit/Spec.antt =====
-- The least set bit of a run of bytes, and what it means.
use hyperion_rust.Common.{
  ℕ, suc, ◌+◌, ◌*◌, ◌/◌, ◌%◌, ◌<◌, ◌≡◌, refl, ap, ap₂, ◌∙◌, List, [], ◌∷◌, Option, none, some,
  get_or, length, All, ◌==◌, if◌then◌else◌, arith, Bool-cases, inl, inr, ltb, ◌-◌, sym, subst,
  dec_lt, true, false,
}
use hyperion_rust.Common.Bits.{
  bit_at, trailing_zeros, bit_at-trailing_zeros, bit_at_below, trailing_zeros-lt, bit_at-zero,
}
use hyperion_rust.Simd.Lanes.{IsByte}

-- Bit `i` of a memory block, counted through its bytes.
abbrev pub mem_bit : List ℕ → ℕ → ℕ
mem_bit p i = bit_at (get_or p (i / 8) 0) (i % 8)

abbrev pub shift : ℕ → Option ℕ → Option ℕ
shift k none = none
shift k (some i) = some (k + i)

pub shift-zero : (o : Option ℕ) → shift 0 o ≡ o
shift-zero none = refl
shift-zero (some i) = ap some (omega arith)

pub shift-shift : (j k : ℕ) (o : Option ℕ) → shift j (shift k o) ≡ shift (j + k) o
shift-shift j k none = refl
shift-shift j k (some i) = ap some (omega arith)

unfoldable pub first_set : List ℕ → Option ℕ
first_set [] = none
first_set (b ∷ bs) = if b == 0 then shift 8 (first_set bs) else some (trailing_zeros 8 b)

-- What a search may answer: the least set bit, or that there is none.
abbrev pub IsFirstSet : List ℕ → Option ℕ → Type 0
IsFirstSet p none = (j : ℕ) → mem_bit p j ≡ 0
IsFirstSet p (some i) = (i < length p * 8) × (mem_bit p i ≡ 1) × ((j : ℕ) → j < i → mem_bit p j ≡ 0)

mem_bit-cons : (b : ℕ) (bs : List ℕ) (i k : ℕ) → i ≡ 8 + k → mem_bit (b ∷ bs) i ≡ mem_bit bs k
mem_bit-cons b bs i k e =
    ap₂ (λ q r. bit_at (get_or (b ∷ bs) q 0) r) {x = i / 8} {y = suc (k / 8)} {u = i % 8}
      {v = k % 8} (omega arith) (omega arith)

mem_bit_head : (b : ℕ) (bs : List ℕ) (i : ℕ) → i < 8 → mem_bit (b ∷ bs) i ≡ bit_at b i
mem_bit_head b bs i h =
    ap₂ (λ q r. bit_at (get_or (b ∷ bs) q 0) r) {x = i / 8} {y = 0} {u = i % 8} {v = i}
      (omega arith) (omega arith)

-- One byte in front: its own bits first, then those of the rest.
mem_bit_split :
    (b : ℕ) (bs : List ℕ) (j : ℕ)
    → mem_bit (b ∷ bs) j ≡ (if ltb j 8 then bit_at b j else mem_bit bs (j - 8))
mem_bit_split b bs j = elim (dec_lt j 8) [
  | yes p ↦ ground (arith, mem_bit_head b bs j p)
  | no p ↦ ground (arith, mem_bit-cons b bs j (j - 8))
]

IsFirstSet-shift : (bs : List ℕ) (o : Option ℕ) → IsFirstSet bs o → IsFirstSet (0 ∷ bs) (shift 8 o)
IsFirstSet-shift bs none h = λ j. ground (arith, mem_bit_split 0 bs j, bit_at-zero j, h (j - 8))
IsFirstSet-shift bs (some i) h = (
  omega arith,
  ground (arith, mem_bit-cons 0 bs (8 + i) i),
  λ j p. ground (arith, mem_bit_split 0 bs j, bit_at-zero j, h.2 (j - 8)),
)

-- The recursion answers with the least set bit, and with none only if all bits are clear.
pub first_set-IsFirstSet : (p : List ℕ) → All IsByte p → IsFirstSet p (first_set p)
unfolding first_set
first_set-IsFirstSet [] h = λ j. bit_at-zero (j % 8)
first_set-IsFirstSet (b ∷ bs) h = elim (Bool-cases (b == 0)) [
  | inl e ↦ rw e (
      subst (λ c. IsFirstSet (c ∷ bs) (shift 8 (first_set bs))) (sym (zero_of b e))
        (IsFirstSet-shift bs (first_set bs) (first_set-IsFirstSet bs h.1)))
  | inr e ↦ rw e (
    (omega (arith, inside e)),
    mem_bit_head b bs (trailing_zeros 8 b) (inside e) ∙ bit_at-trailing_zeros 8 b (inside e),
    λ j p. mem_bit_head b bs j (omega (arith, inside e)) ∙ bit_at_below 8 b j p,
  )
]
  where
    zero_of : (c : ℕ) → (c == 0) ≡ true → c ≡ 0
    zero_of c e = ground arith

    inside : (b == 0) ≡ false → trailing_zeros 8 b < 8
    inside e = trailing_zeros-lt 8 b h.0 (ground arith)
