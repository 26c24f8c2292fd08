-- ===== src/Mask.antt =====
-- A usage mask: an array of u32 words, whose bit `i % 32` of word `i / 32` is 1 while unit `i` is
-- free. Bin and Metabin (memorymanager/components) keep one each, of 128 and of 8 words.
pub mod Bytes
use hyperion_rust.Common.{
  ℕ, zero, suc, ◌+◌, ◌-◌, ◌*◌, ◌/◌, ◌%◌, ◌^◌, ◌<◌, ◌≤◌, ◌≡◌, ◌≢◌, refl, ap, ap₂, sym, subst, ◌∙◌,
  List, [], ◌∷◌, length, get_or, set, All, bit_xor, arith, ◌==◌, if◌then◌else◌, ℕ_discrete,
  get_or-set_self, get_or-set_ne, All-set, All-get_or, length-set, bit_or,
}
use hyperion_rust.Common.Bits.{
  count_ones-le, bit_at, bit_at-lt, bit_at-zero, bit_at-bit_xor, count_ones, count_ones-bit_xor,
  bit_xor-pow-lt,
}

abbrev pub IsWord : ℕ → Type 0
IsWord w = w < 2 ^ 32

-- Whether unit `i` is free, as 1 or 0.
abbrev pub free_at : List ℕ → ℕ → ℕ
free_at mask i = bit_at (get_or mask (i / 32) 0) (i % 32)

-- `mask[i / 32] ^= 1u32 << (i % 32)`.
unfoldable pub toggle : List ℕ → ℕ → List ℕ
toggle mask i = set mask (i / 32) (bit_xor (get_or mask (i / 32) 0) (2 ^ (i % 32)))

-- The number of free units.
unfoldable pub free_count : List ℕ → ℕ
free_count [] = 0
free_count (w ∷ ws) = count_ones 32 w + free_count ws

pub length-toggle : (mask : List ℕ) (i : ℕ) → length (toggle mask i) ≡ length mask
unfolding toggle
length-toggle mask i = length-set mask (i / 32) _

pub toggle-IsWord : (mask : List ℕ) (i : ℕ) → All IsWord mask → All IsWord (toggle mask i)
unfolding toggle
toggle-IsWord mask i h =
    All-set IsWord mask (i / 32) _ h (
      bit_xor-pow-lt 32 _ (i % 32) (All-get_or IsWord mask (i / 32) 0 h (omega arith))
        (omega arith))

-- Toggling flips one unit and no other.
pub free_at-toggle :
    (mask : List ℕ) (i j : ℕ)
    → i / 32 < length mask
    → free_at (toggle mask i) j ≡ (if j == i then 1 - free_at mask j else free_at mask j)
unfolding toggle
free_at-toggle mask i j h = elim (ℕ_discrete (i / 32) (j / 32)) [
  | yes e ↦
      ap (λ w. bit_at w (j % 32)) (at_word e)
      ∙ bit_at-bit_xor (get_or mask (i / 32) 0) (i % 32) (j % 32)
      ∙ same_word e
  | no ne ↦
      ap (λ w. bit_at w (j % 32)) (get_or-set_ne mask (i / 32) (j / 32) flipped 0 ne) ∙ ground arith
]
  where
    flipped : ℕ
    flipped = bit_xor (get_or mask (i / 32) 0) (2 ^ (i % 32))

    at_word : i / 32 ≡ j / 32 → get_or (set mask (i / 32) flipped) (j / 32) 0 ≡ flipped
    at_word e =
        subst (λ k. get_or (set mask (i / 32) flipped) k 0 ≡ flipped) e
          (get_or-set_self mask (i / 32) flipped 0 h)

    same_word :
        i / 32 ≡ j / 32
        → (if j % 32 == i % 32
            then 1 - bit_at (get_or mask (i / 32) 0) (j % 32)
            else bit_at (get_or mask (i / 32) 0) (j % 32))
          ≡ (if j == i then 1 - free_at mask j else free_at mask j)
    same_word e = ground (arith, ap (λ k. bit_at (get_or mask k 0) (j % 32)) e)

count-set :
    (mask : List ℕ) (k w : ℕ)
    → k < length mask
    → free_count (set mask k w) + count_ones 32 (get_or mask k 0)
      ≡ free_count mask + count_ones 32 w
unfolding free_count
count-set [] k w h = absurd (omega arith)
count-set (x ∷ xs) zero w h = omega arith
count-set (x ∷ xs) (suc k) w h = omega (arith, count-set xs k w (omega arith))

-- It changes the number of free units by one.
pub free_count-toggle :
    (mask : List ℕ) (i : ℕ)
    → i / 32 < length mask
    → free_count (toggle mask i) + free_at mask i ≡ free_count mask + (1 - free_at mask i)
unfolding toggle
free_count-toggle mask i h = omega (
  arith,
  count-set mask (i / 32) (bit_xor (get_or mask (i / 32) 0) (2 ^ (i % 32))) h,
  count_ones-bit_xor 32 (get_or mask (i / 32) 0) (i % 32) (omega arith),
)

pub free_count-le : (mask : List ℕ) → free_count mask ≤ 32 * length mask
unfolding free_count
free_count-le [] = omega arith
free_count-le (w ∷ ws) = omega (arith, count_ones-le 32 w, free_count-le ws)
