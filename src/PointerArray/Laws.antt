-- ===== src/PointerArray/Laws.antt =====
-- What the operations of the pointer array keep.
use hyperion_rust.Common.{
  ℕ, zero, suc, ◌+◌, ◌%◌, ◌<◌, ◌≤◌, ◌≡◌, refl, [], ◌∷◌, ◌++◌, ◌==◌, if◌then◌else◌, true, false,
  Option, none, some, replicate, set, length, arith, length-set, length-append, ◌⊎◌, inl, inr, ◌↔◌,
  dec_lt,
}
use hyperion_rust.Metabin.{Metabin, default_metabin}
use hyperion_rust.PointerArray.{PointerArray, new_metabin_at, get, check_extend_pointer_array}

pub get-set :
    (a : PointerArray) (i j : ℕ) (o : Option Metabin)
    → i < length a
    → get (set a i o) j ≡ (if j == i then o else get a j)
get-set [] i j o h = absurd (omega arith)
get-set (x ∷ xs) zero zero o h = refl
get-set (x ∷ xs) zero (suc j) o h = ground arith
get-set (x ∷ xs) (suc i) zero o h = ground arith
get-set (x ∷ xs) (suc i) (suc j) o h = ground (arith, get-set xs i j o (omega arith))

pub get-append_none : (a : PointerArray) (n i : ℕ) → get (a ++ replicate n none) i ≡ get a i
get-append_none [] zero i = refl
get-append_none [] (suc n) zero = refl
get-append_none [] (suc n) (suc i) = get-append_none [] n i
get-append_none (x ∷ xs) n zero = refl
get-append_none (x ∷ xs) n (suc i) = get-append_none xs n i

-- In an array of at least 16 entries a new metabin is accepted exactly at the indexes below 16. It
-- then is the one found there, the other entries stay, and so does the length; at any other index
-- nothing changes.
new_metabin_at_lem :
    (a : PointerArray) (index : ℕ)
    → 16 ≤ length a
    → let r = new_metabin_at a index in
      ((index < 16)
        × (r.0 ≡ true)
        × (length r.1 ≡ length a)
        × ((j : ℕ) → get r.1 j ≡ (if j == index then some default_metabin else get a j)))
      ⊎ ((16 ≤ index) × (r ≡ (false, a)))
unfolding new_metabin_at
new_metabin_at_lem a index h = elim (dec_lt index 16) [
  | yes p ↦ inl (
    p,
    ground arith,
    ground (arith, length-set a index (some default_metabin)),
    λ j. ground (arith, get-set a index j (some default_metabin)),
  )
  | no p ↦ inr (omega arith, ground arith)
]

-- After a check for room every index finds what it found before. The array has kept its length, or
-- got 16 entries more, which happens only at a count that 16 divides and up to 16384. A refusal is
-- reported exactly if 16 divides the count and there is no room.
pub check_extend_pointer_array_lem :
    (a : PointerArray) (current : ℕ)
    → let r = check_extend_pointer_array a current in
      ((j : ℕ) → get r.1 j ≡ get a j)
      × ((length r.1 ≡ length a)
          ⊎ ((length r.1 ≡ length a + 16) × (current % 16 ≡ 0) × (length r.1 ≤ 16384)))
      × ((r.0 ≡ false) ↔ ((current % 16 ≡ 0) × (16384 < length a + 16)))
unfolding check_extend_pointer_array
check_extend_pointer_array_lem a current = (
  λ j. ground (arith, get-append_none a 16 j),
  ground (arith, length-append a (replicate 16 none)),
  ground arith,
)
