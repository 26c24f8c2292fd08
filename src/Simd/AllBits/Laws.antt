-- ===== src/Simd/AllBits/Laws.antt =====
-- When the vector forms say that all bits are set; where the plain form says otherwise.
use hyperion_rust.Common.{
  ℕ, zero, suc, ◌+◌, ◌-◌, ◌*◌, ◌<◌, ◌≡◌, ◌≢◌, refl, ap, ap₂, ◌∙◌, List, [], ◌∷◌, some, take, drop,
  ◌==◌, if◌then◌else◌, Bool, true, false, not, ◌&&◌, ◌↔◌, All, length, arith, Bool-cases, inl, inr,
  take_all, take-append-drop, ◌++◌, sym, subst, length-take, length-drop, All-take, All-drop,
  drop_all, drop-drop, ◌||◌,
}
use hyperion_rust.Common.Bits.{bit_and_byte}
use hyperion_rust.Simd.Lanes.{IsByte, read_u64, Features}
use hyperion_rust.Simd.FirstBit.{block_at}
use hyperion_rust.Simd.AllBits.{
  testc, ones_256, test_all_ones, all_bits_set_256_avx2, all_bits_set_256_sse41,
  all_bits_set_256_fallback, all_bits_set_256, all_blocks, all_bits_set_4096,
}

abbrev pub AllOnes : List ℕ → Type 0
AllOnes p = All (λ b. b ≡ 255) p

all_ones : List ℕ → Bool
all_ones [] = true
all_ones (b ∷ bs) = b == 255 && all_ones bs

all_ones_iff : (p : List ℕ) → (all_ones p ≡ true) ↔ AllOnes p
unfolding all_ones
all_ones_iff [] = (λ _. tt, λ _. refl)
all_ones_iff (b ∷ bs) = (
  λ e. (ground arith, (all_ones_iff bs).0 (ground arith)),
  λ h. ground (arith, (all_ones_iff bs).1 h.1),
)

testc-eq : (p : List ℕ) → All IsByte p → (testc p (ones_256 (length p)) == 1) ≡ all_ones p
unfolding testc ones_256 all_ones
testc-eq [] h = refl
testc-eq (b ∷ bs) h = ground (arith, bit_and_byte (255 - b) (omega arith), testc-eq bs h.1)

test_all_ones-eq : (p : List ℕ) → test_all_ones p ≡ (if all_ones p then 1 else 0)
unfolding test_all_ones all_ones
test_all_ones-eq [] = refl
test_all_ones-eq (b ∷ bs) = ground (arith, test_all_ones-eq bs)

all_ones-append : (xs ys : List ℕ) → all_ones (xs ++ ys) ≡ (all_ones xs && all_ones ys)
unfolding all_ones
all_ones-append [] ys = refl
all_ones-append (x ∷ xs) ys = ground (arith, all_ones-append xs ys)

avx2-eq : (p : List ℕ) → All IsByte p → length p ≡ 32 → all_bits_set_256_avx2 p ≡ all_ones p
unfolding all_bits_set_256_avx2
avx2-eq p h e =
    rw (take_all 32 p (omega arith))
      (subst (λ n. (testc p (ones_256 n) == 1) ≡ all_ones p) e (testc-eq p h))

sse41-eq : (p : List ℕ) → length p ≡ 32 → all_bits_set_256_sse41 p ≡ all_ones p
unfolding all_bits_set_256_sse41
sse41-eq p e = ground (
  arith,
  take_all 16 (drop 16 p) (omega (arith, length-drop 16 p)),
  test_all_ones-eq (take 16 p),
  ap test_all_ones (take_all 16 (drop 16 p) (omega (arith, length-drop 16 p))),
  test_all_ones-eq (drop 16 p),
  all_ones-append (take 16 p) (drop 16 p),
  ap all_ones (take-append-drop 16 p),
)

-- The processor has one of the two vector extensions.
abbrev pub HasVectors : Features → Type 0
HasVectors c = (c.avx2 || c.sse41) ≡ true

with_vectors :
    (c : Features) (p : List ℕ)
    → HasVectors c
    → All IsByte p
    → length p ≡ 32
    → all_bits_set_256 c (some p) ≡ all_ones p
unfolding all_bits_set_256
with_vectors c p v h e = ground (arith, avx2-eq p h e, sse41-eq p e)

-- With AVX2 or SSE4.1, the test of a 32-byte block holds exactly when every byte is 0xFF.
pub all_bits_set_256_iff :
    (c : Features) (p : List ℕ)
    → HasVectors c
    → All IsByte p
    → length p ≡ 32
    → (all_bits_set_256 c (some p) ≡ true) ↔ AllOnes p
all_bits_set_256_iff c p v h e = rw (with_vectors c p v h e) (all_ones_iff p)

-- On every block of 32 bytes that has a bit in each of its four words and is not full, the plain
-- form says that all bits are set and the AVX2 form that they are not.
pub all_bits_set_256_fallback_differs :
    (p : List ℕ)
    → All IsByte p
    → length p ≡ 32
    → read_u64 p 0 ≢ 0
    → read_u64 p 1 ≢ 0
    → read_u64 p 2 ≢ 0
    → read_u64 p 3 ≢ 0
    → ¬ AllOnes p
    → (all_bits_set_256_fallback p ≡ true) × (all_bits_set_256_avx2 p ≡ false)
unfolding all_bits_set_256_fallback
all_bits_set_256_fallback_differs p h e a b c d partial = (
  ground arith,
  avx2-eq p h e ∙ elim (Bool-cases (all_ones p)) [
    | inl full ↦ absurd (partial ((all_ones_iff p).0 full))
    | inr gap ↦ gap
  ],
)

if_not : (a b l : Bool) → (if not a then false else (b && l)) ≡ ((a && b) && l)
if_not true b l = refl
if_not false b l = refl

-- A block and the rest after it.
all_ones-drop :
    (p : List ℕ) (i : ℕ)
    → (all_ones (block_at p i) && all_ones (drop ((i + 1) * 32) p)) ≡ all_ones (drop (i * 32) p)
all_ones-drop p i =
    ap (λ q. all_ones (block_at p i) && all_ones q) (sym rest)
    ∙ sym (all_ones-append (block_at p i) (drop 32 (drop (i * 32) p)))
    ∙ ap all_ones (take-append-drop 32 (drop (i * 32) p))
  where
    rest : drop 32 (drop (i * 32) p) ≡ drop ((i + 1) * 32) p
    rest = drop-drop 32 (i * 32) p ∙ ap (λ k. drop k p) {x = i * 32 + 32} (omega arith)

module _ (c : Features) (p : List ℕ) (v : HasVectors c) (h : All IsByte p)
    (e : length p ≡ 512) where
  block_at-eq :
      (i : ℕ) → i < 16 → all_bits_set_256 c (some (block_at p i)) ≡ all_ones (block_at p i)
  block_at-eq i lt =
      with_vectors c (block_at p i) v (All-take IsByte 32 _ (All-drop IsByte (i * 32) p h))
        (omega (arith, length-take 32 (drop (i * 32) p), length-drop (i * 32) p))

  all_blocks-eq :
      (n i : ℕ)
      → i + n ≡ 16
      → all_blocks c p n i ≡ (all_ones (drop (i * 32) p) && all_ones (block_at p 15))
  unfolding all_blocks
  all_blocks-eq zero i s =
      rw (drop_all (i * 32) p (omega arith)) (unfold all_ones in block_at-eq 15 (omega arith))
  all_blocks-eq (suc n) i s =
      ap₂ (λ a r. if not a then false else r) (block_at-eq i (omega arith))
        (all_blocks-eq n (i + 1) (omega arith))
      ∙ if_not (all_ones (block_at p i)) (all_ones (drop ((i + 1) * 32) p))
          (all_ones (block_at p 15))
      ∙ ap (λ t. t && all_ones (block_at p 15)) (all_ones-drop p i)

  -- With AVX2 or SSE4.1, the test of 512 bytes holds exactly when every byte is 0xFF.
  pub all_bits_set_4096_iff : (all_bits_set_4096 c p ≡ true) ↔ AllOnes p
  unfolding all_bits_set_4096
  all_bits_set_4096_iff = (
    λ t. (all_ones_iff p).0 (and_left (all_ones p) _ (sym (all_blocks-eq 16 0 refl) ∙ t)),
    λ o.
        all_blocks-eq 16 0 refl
        ∙ ap₂ ◌&&◌ ((all_ones_iff p).1 o)
            ((all_ones_iff (block_at p 15)).1 (All-take _ 32 _ (All-drop _ 480 p o))),
  )
    where
      and_left : (a b : Bool) → (a && b) ≡ true → a ≡ true
      and_left true b t = refl
      and_left false b t = t
