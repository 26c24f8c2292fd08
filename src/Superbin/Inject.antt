-- ===== src/Superbin/Inject.antt =====
-- `inject_metabin_into_metaring` keeps the ring ascending and puts the id in its place.
use hyperion_rust.Common.{
  ℕ, zero, suc, ◌+◌, ◌-◌, ◌<◌, ◌≤◌, ◌≡◌, ◌≢◌, refl, ap, subst, ◌∙◌, List, [], ◌∷◌, ◌++◌, ◌==◌, ltb,
  if◌then◌else◌, Bool, true, false, not, ◌||◌, Option, none, some, set, get_or, take, drop, length,
  All, arith, Bool-cases, Option-cases, inl, inr, ◌⊎◌, length-take, if_both, All-take, ltb→lt,
}
use hyperion_rust.Simd.Lanes.{Features}
use hyperion_rust.Simd.AllBits.Laws.{HasVectors}
use hyperion_rust.Simd.Lane16.Laws.{find_index}
use hyperion_rust.Simd.Lane16.{gt_i16}
use hyperion_rust.Simd.Lane16.Agree.{sorted_insert_256_2-eq, gt_i16_small}
use hyperion_rust.Metabin.{Metabin}
use hyperion_rust.Superbin.{
  Superbin, shift_metabin_ring_right, inject_at, inject_metabin_into_metaring,
}

-- Ascending, not strictly: an id may stand twice.
abbrev pub Ascending : List ℕ → Type 0
Ascending [] = Unit
Ascending (x ∷ xs) = All (λ y. x ≤ y) xs × Ascending xs

abbrev pub Occurs : ℕ → List ℕ → Type 0
Occurs id [] = ⊥
Occurs id (x ∷ xs) = (x ≡ id) ⊎ Occurs id xs

-- An id in front of the first greater entry, the last entry dropped.
ring_insert : ℕ → List ℕ → List ℕ
ring_insert id [] = []
ring_insert id (x ∷ xs) = if ltb id x then id ∷ take (length xs) (x ∷ xs) else x ∷ ring_insert id xs

-- The two steps of the source at an index: shift, then write.
abbrev insert_at : ℕ → List ℕ → ℕ → List ℕ
insert_at n ring i = take (i + 1) ring ++ drop i (take n ring)

pub find_index-lt :
    (test : ℕ → Bool) (xs : List ℕ) (i : ℕ) → find_index test xs ≡ some i → i < length xs
unfolding find_index
find_index-lt test [] i h = cc
find_index-lt test (x ∷ xs) zero h = omega arith
find_index-lt test (x ∷ xs) (suc i) h = elim (Bool-cases (test x)) [
  | inl e ↦ ground arith
  | inr e ↦ elim (Option-cases (find_index test xs)) [
    | inl none_there ↦ ground arith
    | inr (j, there) ↦ omega (arith, find_index-lt test xs i (ground arith))
  ]
]

hit_cases :
    (id x : ℕ) (xs : List ℕ) (i : ℕ)
    → find_index (λ y. ltb id y) (x ∷ xs) ≡ some i
    → ((ltb id x ≡ true) × (i ≡ 0))
      ⊎ ((j : ℕ) × (ltb id x ≡ false) × (i ≡ suc j) × (find_index (λ y. ltb id y) xs ≡ some j))
unfolding find_index
hit_cases id x xs i h = elim (Bool-cases (ltb id x)) [
  | inl e ↦ inl (e, ground arith)
  | inr e ↦ elim (Option-cases (find_index (λ y. ltb id y) xs)) [
    | inl none_there ↦ ground arith
    | inr (j, there) ↦ inr (j, e, ground arith, there)
  ]
]

put_at :
    (ring : List ℕ) (i id n : ℕ)
    → suc n ≡ length ring
    → find_index (λ x. ltb id x) ring ≡ some i
    → set (insert_at n ring i) i id ≡ ring_insert id ring
unfolding ring_insert
put_at [] i id n e h = cc
put_at (x ∷ xs) zero id n e h = elim (hit_cases id x xs zero h) [
  | inl r ↦ rw r.0 (ap (λ k. id ∷ take k (x ∷ xs)) (omega arith))
  | inr r ↦ absurd (omega (arith, r.2))
]
put_at (x ∷ xs) (suc i) id zero e h = elim (hit_cases id x xs (suc i) h) [
  | inl r ↦ absurd (omega (arith, r.1))
  | inr r ↦ absurd (omega (arith, find_index-lt (λ y. ltb id y) xs r.0 r.3))
]
put_at (x ∷ xs) (suc i) id (suc n) e h = elim (hit_cases id x xs (suc i) h) [
  | inl r ↦ absurd (omega (arith, r.1))
  | inr r ↦ rw r.1 (
      ap (λ k. set (take k (x ∷ xs) ++ drop i (take n xs)) (suc i) id) {x = suc i + 1}
        {y = suc (i + 1)} (omega arith)
      ∙ ap (λ t. x ∷ t) (put_at xs i id n (omega arith) (r.3 ∙ ap some (omega (arith, r.2)))))
]

All-weaken : (x y : ℕ) (xs : List ℕ) → y ≤ x → All (λ z. x ≤ z) xs → All (λ z. y ≤ z) xs
All-weaken x y [] h a = tt
All-weaken x y (z ∷ zs) h a = (omega arith, All-weaken x y zs h a.1)

Ascending-take : (n : ℕ) (xs : List ℕ) → Ascending xs → Ascending (take n xs)
Ascending-take zero xs h = tt
Ascending-take (suc n) [] h = tt
Ascending-take (suc n) (x ∷ xs) h = (All-take _ n xs h.0, Ascending-take n xs h.1)

module _ (id : ℕ) where
  All-ring_insert :
      (P : ℕ → Type 0) (ring : List ℕ) → P id → All P ring → All P (ring_insert id ring)
  unfolding ring_insert
  All-ring_insert P [] h a = tt
  All-ring_insert P (x ∷ xs) h a =
      if_both (All P) (ltb id x) (h, All-take P (length xs) (x ∷ xs) a)
        (a.0, All-ring_insert P xs h a.1)

  Ascending-ring_insert : (ring : List ℕ) → Ascending ring → Ascending (ring_insert id ring)
  unfolding ring_insert
  Ascending-ring_insert [] h = tt
  Ascending-ring_insert (x ∷ xs) h = elim (Bool-cases (ltb id x)) [
    | inl e ↦ rw e (
      All-take _ (length xs) (x ∷ xs)
          (omega (arith, ltb→lt id x e), All-weaken x id xs (omega (arith, ltb→lt id x e)) h.0),
      Ascending-take (length xs) (x ∷ xs) h,
    )
    | inr e ↦
        rw e (All-ring_insert (λ z. x ≤ z) xs (ground arith) h.0, Ascending-ring_insert xs h.1)
  ]

  length-ring_insert : (ring : List ℕ) → length (ring_insert id ring) ≡ length ring
  unfolding ring_insert
  length-ring_insert [] = refl
  length-ring_insert (x ∷ xs) =
      ground (arith, length-take (length xs) (x ∷ xs), length-ring_insert xs)

  Occurs-ring_insert :
      (ring : List ℕ) (i : ℕ)
      → find_index (λ x. ltb id x) ring ≡ some i
      → Occurs id (ring_insert id ring)
  unfolding ring_insert
  Occurs-ring_insert [] i h = absurd (none_some (unfold find_index in h))
    where
      none_some : none ≢ some i
      none_some t = cc
  Occurs-ring_insert (x ∷ xs) i h = elim (hit_cases id x xs i h) [
    | inl r ↦ rw r.0 (inl refl)
    | inr r ↦ rw r.1 (inr (Occurs-ring_insert xs r.0 r.3))
  ]

-- A ring of 16 metabin ids in ascending order.
pub record IsRing (ring : List ℕ) : Type 0 where
  pub size : length ring ≡ 16
  pub ascending : Ascending ring
  pub ids : All (λ x. x < 16384) ring

small_test :
    (id : ℕ) (ring : List ℕ)
    → id < 16384
    → All (λ x. x < 16384) ring
    → find_index (λ x. gt_i16 x id) ring ≡ find_index (λ x. ltb id x) ring
unfolding find_index
small_test id [] h a = refl
small_test id (x ∷ xs) h a =
    ground (arith, gt_i16_small x id (omega arith) (omega arith), small_test id xs h a.1)

none_greater :
    (id : ℕ) (ring : List ℕ) → find_index (λ x. ltb id x) ring ≡ none → All (λ x. x ≤ id) ring
unfolding find_index
none_greater id [] h = tt
none_greater id (x ∷ xs) h = (ground arith, none_greater id xs (ground arith))

Occurs-get_or :
    (id : ℕ) (ring : List ℕ) (i : ℕ) → i < length ring → get_or ring i 0 ≡ id → Occurs id ring
Occurs-get_or id [] i h e = absurd (omega arith)
Occurs-get_or id (x ∷ xs) zero h e = inl e
Occurs-get_or id (x ∷ xs) (suc i) h e = inr (Occurs-get_or id xs i (omega arith) e)

-- What an injection may leave: a ring with the id in it, or the old ring if no entry is greater.
abbrev pub Injected : ℕ → List ℕ → List ℕ → Type 0
Injected id ring ring' =
    IsRing ring' × (Occurs id ring' ⊎ ((ring' ≡ ring) × All (λ x. x ≤ id) ring))

inject_at-Injected :
    (id : ℕ) (ring : List ℕ) (o : Option ℕ)
    → IsRing ring
    → id < 16384
    → find_index (λ x. ltb id x) ring ≡ o
    → Injected id ring (inject_at ring id o)
unfolding inject_at shift_metabin_ring_right
inject_at-Injected id ring none v h e = (v, inr (refl, none_greater id ring e))
inject_at-Injected id ring (some i) v h e =
    elim (Bool-cases (i == 0 || not (get_or ring (i - 1) 0 == id))) [
      | inl write ↦
          rw (write, put_at ring i id 15 (omega (arith, v.size)) e)
            (
              record {
                size = length-ring_insert id ring ∙ v.size;
                ascending = Ascending-ring_insert id ring v.ascending;
                ids = All-ring_insert id (λ x. x < 16384) ring h v.ids;
              },
              inl (Occurs-ring_insert id ring i e),
            )
      | inr skip ↦ rw skip (
        v,
        inl (
            Occurs-get_or id ring (i - 1) (omega (arith, find_index-lt (λ x. ltb id x) ring i e))
              (ground arith)),
      )
    ]

inject_zero :
    (ring : List ℕ) → IsRing ring → Injected 0 ring (set (shift_metabin_ring_right ring 0) 0 0)
unfolding shift_metabin_ring_right
inject_zero [] v = absurd (omega (arith, v.size))
inject_zero (x ∷ xs) v = (
  record {
    size = omega (arith, length-take 15 (x ∷ xs), v.size);
    ascending = (
      All-weaken 0 0 (take 15 (x ∷ xs)) (omega arith) (all_zero (take 15 (x ∷ xs))),
      Ascending-take 15 (x ∷ xs) v.ascending,
    );
    ids = (omega arith, All-take (λ y. y < 16384) 15 (x ∷ xs) v.ids);
  },
  inl (inl refl),
)
  where
    all_zero : (ys : List ℕ) → All (λ y. 0 ≤ y) ys
    all_zero [] = tt
    all_zero (y ∷ ys) = (omega arith, all_zero ys)

-- With AVX2 or SSE4.1, putting a metabin with an id below 16384 back into a ring of 16 ascending
-- ids keeps the ring 16 ascending ids. Afterwards it holds the metabin's id, unless no entry was
-- greater: then it may have stayed as it was.
pub inject_metabin_into_metaring-Injected :
    (c : Features) (s : Superbin) (m : Metabin)
    → HasVectors c
    → IsRing s.metabin_ring
    → m.id < 16384
    → Injected m.id s.metabin_ring (inject_metabin_into_metaring c s m).metabin_ring
unfolding inject_metabin_into_metaring
inject_metabin_into_metaring-Injected c s m vec v h = elim (Bool-cases (ltb 0 m.id)) [
  | inl e ↦
      rw
        (
          e,
          sorted_insert_256_2-eq m.id s.metabin_ring v.size c vec,
          small_test m.id s.metabin_ring h v.ids,
        )
        (inject_at-Injected m.id s.metabin_ring _ v h refl)
  | inr e ↦ rw e (zero_id (get_or s.metabin_ring 0 0 == 0) refl e)
]
  where
    zero_id :
        (b : Bool)
        → (get_or s.metabin_ring 0 0 == 0) ≡ b
        → ltb 0 m.id ≡ false
        → Injected m.id s.metabin_ring
            (if not b
              then record s { metabin_ring = set (shift_metabin_ring_right s.metabin_ring 0) 0 0 }
              else s).metabin_ring
    zero_id true q e =
        (v, inl (Occurs-get_or m.id s.metabin_ring 0 (omega (arith, v.size)) (ground arith)))
    zero_id false q e =
        subst (λ k. Injected k s.metabin_ring (set (shift_metabin_ring_right s.metabin_ring 0) 0 0))
          {x = 0} (ground arith) (inject_zero s.metabin_ring v)
