-- ===== src/Common/Bits.antt =====
-- Machine words bit by bit: one bit of a word, its trailing zeros and its count of ones, as the
-- integer methods of the standard library give them, and exclusive or with a single bit.
use native.Mathlib.Decide.{ℕ_discrete}
use Prim.Native.Nat.{
  ℕ, zero, suc, ◌+◌, ◌-◌, ◌*◌, ◌/◌, ◌%◌, ◌^◌, ◌≤◌, ◌<◌, bit_xor, bit_and, digits, bit_xor-bitwise,
  differ,
}
use mathlib.Core.Path.{◌≡◌, refl, ap, ap₂, sym, subst}
use mathlib.Core.Logic.{◌≢◌, inl, inr}
use mathlib.Core.Bool.{Bool, true, ◌&&◌, ◌||◌}
use native.Mathlib.Omega.{arith}
use native.Mathlib.Nat.{pow-suc}
use hyperion_rust.Common.Tests.{if◌then◌else◌, ◌==◌, ==_iff, leb, Bool-cases}

-- Bit `i` of a word, 0 or 1.
unfoldable pub bit_at : ℕ → ℕ → ℕ
bit_at v zero = v % 2
bit_at v (suc i) = bit_at (v / 2) i

-- `trailing_zeros` of a word of the given width, which is its result at 0.
unfoldable pub trailing_zeros : ℕ → ℕ → ℕ
trailing_zeros zero v = 0
trailing_zeros (suc w) v = if v % 2 == 1 then 0 else suc (trailing_zeros w (v / 2))

-- `count_ones` of a word of the given width.
unfoldable pub count_ones : ℕ → ℕ → ℕ
count_ones zero v = 0
count_ones (suc w) v = v % 2 + count_ones w (v / 2)

pub bit_at-lt : (v i : ℕ) → bit_at v i < 2
unfolding bit_at
bit_at-lt v zero = omega arith
bit_at-lt v (suc i) = bit_at-lt (v / 2) i

pub bit_at-zero : (i : ℕ) → bit_at 0 i ≡ 0
unfolding bit_at
bit_at-zero zero = refl
bit_at-zero (suc i) = bit_at-zero i

-- Exclusive or by its lowest digit, from the recursion that the native operation stands for.
abbrev xor_digits : ℕ → ℕ → ℕ → ℕ
xor_digits n a b = digits (λ y. y) differ n a b

xor_digits_fuel : (n m a b : ℕ) → a ≤ n → a ≤ m → xor_digits n a b ≡ xor_digits m a b
xor_digits_fuel zero zero a b p q = refl
xor_digits_fuel zero (suc m) zero b p q = refl
xor_digits_fuel zero (suc m) (suc a) b p q = absurd (omega arith)
xor_digits_fuel (suc n) zero zero b p q = refl
xor_digits_fuel (suc n) zero (suc a) b p q = absurd (omega arith)
xor_digits_fuel (suc n) (suc m) zero b p q = refl
xor_digits_fuel (suc n) (suc m) (suc a) b p q =
    omega (arith, xor_digits_fuel n m (suc a / 2) (b / 2) (omega arith) (omega arith))

differ-zero : (x : ℕ) → differ x 0 ≡ x
differ-zero zero = refl
differ-zero (suc x) = refl

differ_one : (x : ℕ) → x < 2 → differ x 1 ≡ 1 - x
differ_one zero h = refl
differ_one (suc zero) h = refl
differ_one (suc (suc x)) h = absurd (omega arith)

bit_xor_step : (a b : ℕ) → bit_xor a b ≡ bit_xor (a / 2) (b / 2) * 2 + differ (a % 2) (b % 2)
bit_xor_step zero b = omega (arith, bit_xor-bitwise 0 b, bit_xor-bitwise 0 (b / 2))
bit_xor_step (suc a) b = omega (
  arith,
  bit_xor-bitwise (suc a) b,
  bit_xor-bitwise (suc a / 2) (b / 2),
  xor_digits_fuel a (suc a / 2) (suc a / 2) (b / 2) (omega arith) (omega arith),
)

bit_xor-zero_fuel : (n a : ℕ) → a ≤ n → bit_xor a 0 ≡ a
bit_xor-zero_fuel n zero h = refl
bit_xor-zero_fuel zero (suc a) h = absurd (omega arith)
bit_xor-zero_fuel (suc n) (suc a) h = omega (
  arith,
  bit_xor_step (suc a) 0,
  differ-zero (suc a % 2),
  bit_xor-zero_fuel n (suc a / 2) (omega arith),
)

bit_xor-zero : (a : ℕ) → bit_xor a 0 ≡ a
bit_xor-zero a = bit_xor-zero_fuel a a (omega arith)

-- `v ^ (1 << k)`, one digit at a time.
pub bit_xor-pow_zero : (v : ℕ) → bit_xor v (2 ^ 0) ≡ v / 2 * 2 + (1 - v % 2)
bit_xor-pow_zero v =
    omega (arith, bit_xor_step v 1, bit_xor-zero (v / 2), differ_one (v % 2) (omega arith))

pub bit_xor-pow_suc : (v k : ℕ) → bit_xor v (2 ^ suc k) ≡ bit_xor (v / 2) (2 ^ k) * 2 + v % 2
bit_xor-pow_suc v k =
    omega (arith, pow-suc 2 k, bit_xor_step v (2 ^ suc k), halves, differ-zero (v % 2), low)
  where
    half : 2 ^ suc k / 2 ≡ 2 ^ k
    half = omega (arith, pow-suc 2 k)

    halves : bit_xor (v / 2) (2 ^ suc k / 2) ≡ bit_xor (v / 2) (2 ^ k)
    halves = ap (bit_xor (v / 2)) half

    low : differ (v % 2) (2 ^ suc k % 2) ≡ differ (v % 2) 0
    low = ap (differ (v % 2)) (omega (arith, pow-suc 2 k))

-- Exclusive or with `1 << k` flips bit `k` and keeps the others.
pub bit_at-bit_xor :
    (v k j : ℕ) → bit_at (bit_xor v (2 ^ k)) j ≡ (if j == k then 1 - bit_at v j else bit_at v j)
unfolding bit_at
bit_at-bit_xor v zero zero = omega (arith, bit_xor-pow_zero v)
bit_at-bit_xor v zero (suc j) = ground (arith, ap (λ t. bit_at t j) same)
  where
    same : bit_xor v (2 ^ 0) / 2 ≡ v / 2
    same = omega (arith, bit_xor-pow_zero v)
bit_at-bit_xor v (suc k) zero = ground (arith, bit_xor-pow_suc v k)
bit_at-bit_xor v (suc k) (suc j) =
    ground (arith, ap (λ t. bit_at t j) same, bit_at-bit_xor (v / 2) k j)
  where
    same : bit_xor v (2 ^ suc k) / 2 ≡ bit_xor (v / 2) (2 ^ k)
    same = omega (arith, bit_xor-pow_suc v k)

-- So the count of ones goes up or down by one.
pub count_ones-bit_xor :
    (w v k : ℕ)
    → k < w
    → count_ones w (bit_xor v (2 ^ k)) + bit_at v k ≡ count_ones w v + (1 - bit_at v k)
unfolding bit_at count_ones
count_ones-bit_xor zero v k h = absurd (omega arith)
count_ones-bit_xor (suc w) v zero h = omega (arith, bit_xor-pow_zero v, ap (count_ones w) same)
  where
    same : bit_xor v (2 ^ 0) / 2 ≡ v / 2
    same = omega (arith, bit_xor-pow_zero v)
count_ones-bit_xor (suc w) v (suc k) h = omega (
  arith,
  bit_xor-pow_suc v k,
  ap (count_ones w) same,
  count_ones-bit_xor w (v / 2) k (omega arith),
)
  where
    same : bit_xor v (2 ^ suc k) / 2 ≡ bit_xor (v / 2) (2 ^ k)
    same = omega (arith, bit_xor-pow_suc v k)

-- It stays a word of its width.
pub bit_xor-pow-lt : (w v k : ℕ) → v < 2 ^ w → k < w → bit_xor v (2 ^ k) < 2 ^ w
bit_xor-pow-lt zero v k h p = absurd (omega arith)
bit_xor-pow-lt (suc w) v zero h p = omega (arith, bit_xor-pow_zero v, pow-suc 2 w)
bit_xor-pow-lt (suc w) v (suc k) h p = omega (
  arith,
  bit_xor-pow_suc v k,
  pow-suc 2 w,
  bit_xor-pow-lt w (v / 2) k (omega (arith, pow-suc 2 w)) (omega arith),
)

-- Trailing zeros: the bits below are clear, and the bit there is set if it is inside the word.
pub trailing_zeros-le : (w v : ℕ) → trailing_zeros w v ≤ w
unfolding trailing_zeros
trailing_zeros-le zero v = omega arith
trailing_zeros-le (suc w) v = ground (arith, trailing_zeros-le w (v / 2))

pub bit_at-trailing_zeros : (w v : ℕ) → trailing_zeros w v < w → bit_at v (trailing_zeros w v) ≡ 1
unfolding bit_at trailing_zeros
bit_at-trailing_zeros zero v h = absurd (omega arith)
bit_at-trailing_zeros (suc w) v h = elim (Bool-cases (v % 2 == 1)) [
  | inl e ↦ rw e (ground arith)
  | inr e ↦ rw e (bit_at-trailing_zeros w (v / 2) (ground arith))
]

pub bit_at_below : (w v j : ℕ) → j < trailing_zeros w v → bit_at v j ≡ 0
unfolding bit_at trailing_zeros
bit_at_below zero v j h = absurd (omega arith)
bit_at_below (suc w) v zero h = ground arith
bit_at_below (suc w) v (suc j) h = bit_at_below w (v / 2) j (ground arith)

pub trailing_zeros-zero : (w : ℕ) → trailing_zeros w 0 ≡ w
unfolding trailing_zeros
trailing_zeros-zero zero = refl
trailing_zeros-zero (suc w) = ap suc (trailing_zeros-zero w)

pub trailing_zeros-lt : (w v : ℕ) → v < 2 ^ w → v ≢ 0 → trailing_zeros w v < w
unfolding trailing_zeros
trailing_zeros-lt zero v h ne = absurd (ne (omega arith))
trailing_zeros-lt (suc w) v h ne =
    ground (arith, trailing_zeros-lt w (v / 2) (omega (arith, pow-suc 2 w)))

-- Of `k` low digits and a word above them, the low digits go first.
pub trailing_zeros-add :
    (k w b v : ℕ)
    → b < 2 ^ k
    → trailing_zeros (k + w) (b + 2 ^ k * v)
      ≡ (if b == 0 then k + trailing_zeros w v else trailing_zeros k b)
unfolding trailing_zeros
trailing_zeros-add zero w b v h = ground (arith, ap₂ trailing_zeros width word)
  where
    width : zero + w ≡ w
    width = omega arith

    word : b + 2 ^ 0 * v ≡ v
    word = omega arith
trailing_zeros-add (suc k) w b v h = ground (
  arith,
  ap (λ n. trailing_zeros n (b + 2 ^ suc k * v)) width,
  digit,
  ap (trailing_zeros (k + w)) rest,
  trailing_zeros-add k w (b / 2) v (omega (arith, pow-suc 2 k)),
)
  where
    width : suc k + w ≡ suc (k + w)
    width = omega arith

    double : 2 ^ suc k * v ≡ 2 * (2 ^ k * v)
    double = omega (arith, ap (λ (t : ℕ). t * v) (pow-suc 2 k))

    digit : (b + 2 ^ suc k * v) % 2 ≡ b % 2
    digit = omega (arith, double)

    rest : (b + 2 ^ suc k * v) / 2 ≡ b / 2 + 2 ^ k * v
    rest = omega (arith, double)

pub trailing_zeros-double :
    (w m : ℕ) → trailing_zeros (suc w) (0 + 2 * m) ≡ suc (trailing_zeros w m)
unfolding trailing_zeros
trailing_zeros-double w m = ground (arith, ap (trailing_zeros w) half)
  where
    half : (0 + 2 * m) / 2 ≡ m
    half = omega arith

pub trailing_zeros_odd : (w m : ℕ) → trailing_zeros (suc w) (1 + 2 * m) ≡ 0
unfolding trailing_zeros
trailing_zeros_odd w m = ground arith

pub count_ones-add :
    (k w b v : ℕ) → b < 2 ^ k → count_ones (k + w) (b + 2 ^ k * v) ≡ count_ones k b + count_ones w v
unfolding count_ones
count_ones-add zero w b v h = omega (arith, ap₂ count_ones width word)
  where
    width : zero + w ≡ w
    width = omega arith

    word : b + 2 ^ 0 * v ≡ v
    word = omega arith
count_ones-add (suc k) w b v h = omega (
  arith,
  ap (λ n. count_ones n (b + 2 ^ suc k * v)) width,
  double,
  ap (count_ones (k + w)) rest,
  count_ones-add k w (b / 2) v (omega (arith, pow-suc 2 k)),
)
  where
    width : suc k + w ≡ suc (k + w)
    width = omega arith

    double : 2 ^ suc k * v ≡ 2 * (2 ^ k * v)
    double = omega (arith, ap (λ (t : ℕ). t * v) (pow-suc 2 k))

    rest : (b + 2 ^ suc k * v) / 2 ≡ b / 2 + 2 ^ k * v
    rest = omega (arith, double)

-- Over a small range, check every value by evaluation.
unfoldable pub holds_until : (ℕ → Bool) → ℕ → Bool
holds_until test zero = true
holds_until test (suc bound) = holds_until test bound && test bound

pub holds_until-eq :
    (test : ℕ → Bool) (bound : ℕ)
    → holds_until test bound ≡ true
    → (i : ℕ) → i < bound
    → test i ≡ true
unfolding holds_until
holds_until-eq test zero all i small = absurd (omega arith)
holds_until-eq test (suc bound) all i small = elim (ℕ_discrete i bound) [
  | yes last ↦ subst (λ k. test k ≡ true) (sym last) (ground arith)
  | no earlier ↦ holds_until-eq test bound (ground arith) i (omega arith)
]

byte_mask_table : holds_until (λ x. bit_and x 255 == x) 256 ≡ true
unfolding holds_until
byte_mask_table = refl

pub bit_and_byte : (x : ℕ) → x < 256 → bit_and x 255 ≡ x
bit_and_byte x h = (==_iff _ x).0 (holds_until-eq _ 256 byte_mask_table x h)

-- A byte with eight ones is 255.
byte_ones_table : holds_until (λ x. leb (count_ones 8 x) 7 || x == 255) 256 ≡ true
unfolding holds_until count_ones
byte_ones_table = refl

pub count_ones-le : (w v : ℕ) → count_ones w v ≤ w
unfolding count_ones
count_ones-le zero v = omega arith
count_ones-le (suc w) v = omega (arith, count_ones-le w (v / 2))

pub byte_of_ones : (x : ℕ) → x < 256 → count_ones 8 x ≡ 8 → x ≡ 255
byte_of_ones x h e = ground (arith, holds_until-eq _ 256 byte_ones_table x h)
