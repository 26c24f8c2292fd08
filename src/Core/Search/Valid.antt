-- ===== src/Core/Search/Valid.antt =====
-- The search of a superbin keeps it valid, and the pointer that it gives names a metabin of it.
use hyperion_rust.Common.{
  ℕ, zero, suc, subst, ◌<◌, ◌≡◌, refl, sym, ap, ◌∙◌, ◌==◌, if◌then◌else◌, true, false, Option, none,
  some, set, get_or, length-set, arith, dec_lt, ℕ_discrete,
}
use hyperion_rust.Simd.Lanes.{Features}
use hyperion_rust.Allocator.{Libc}
use hyperion_rust.Pointer.{set_metabin_id}
use hyperion_rust.Metabin.{Metabin, State, Result}
use hyperion_rust.Metabin
use hyperion_rust.Metabin.Allocate.{IsMask}
use hyperion_rust.Metabin.Masked.{ResultMask, allocate_bin-ResultMask}
use hyperion_rust.Metabin.Named.{ResultNames, allocate_bin-ResultNames}
use hyperion_rust.PointerArray.{get}
use hyperion_rust.PointerArray.Laws.{get-set}
use hyperion_rust.Superbin.{Superbin, self_update_metaring, get_metabin_candidate}
use hyperion_rust.Superbin.Valid.{IsValid}
use hyperion_rust.Superbin.Update.{self_update_metaring_lem}
use hyperion_rust.Core.Search.{
  Search, SearchResult, found, panicked, no_fuel, allocate_bin, put_back, to_state,
}

some-none : {m : Metabin} → some m ≡ none → ⊥
some-none e = cc e

-- The metabin, if there is one, has a mask of 8 words.
abbrev MaskOf : Option Metabin → Type 0
MaskOf none = Unit
MaskOf (some m) = IsMask m.bin_usage_mask

-- A metabin that a valid superbin has stands below the count, under its id, with a mask of 8 words.
pub candidate-lt :
    {floor : ℕ} (s : Superbin) (i : ℕ) (m : Metabin)
    → IsValid floor s
    → get s.metabins i ≡ some m
    → (i < s.header.metabins_initialized) × (m.id ≡ i) × IsMask m.bin_usage_mask
candidate-lt s i m v e = elim (dec_lt i s.header.metabins_initialized) [
  | yes below ↦ (
    below,
    ap (λ o. elim o as (λ _. ℕ) [ none ↦ 0 | some m' ↦ m'.id ]) (sym e ∙ (v.present i below).1)
        ∙ (v.present i below).2,
    subst MaskOf ((sym (v.present i below).1) ∙ e) (v.present i below).3,
  )
  | no beyond ↦ absurd (some-none (sym e ∙ v.absent i (omega arith)))
]

-- A metabin of a valid superbin can be replaced by one with its id.
pub set-IsValid :
    {floor : ℕ} (s : Superbin) (i cache : ℕ) (m : Metabin)
    → IsValid floor s
    → i < s.header.metabins_initialized
    → m.id ≡ i
    → IsMask m.bin_usage_mask
    → IsValid floor (record s { bin_cache = cache; metabins = set s.metabins i (some m) })
set-IsValid s i cache m v h e mask = record {
  room = omega (arith, v.room, length-set s.metabins i (some m));
  one_metabin = v.one_metabin;
  above = v.above;
  few = v.few;
  present = λ j lt. elim (ℕ_discrete j i) [
    | yes same ↦ (m, replaced j ∙ ground arith, e ∙ sym same, mask)
    | no other ↦ (
      (v.present j lt).0,
      replaced j ∙ ground (arith, (v.present j lt).1),
      (v.present j lt).2,
      (v.present j lt).3,
    )
  ];
  absent = λ j le. replaced j ∙ ground (arith, v.absent j le);
  ring_size = v.ring_size;
}
  where
    replaced :
        (j : ℕ) → get (set s.metabins i (some m)) j ≡ (if j == i then some m else get s.metabins j)
    replaced j = get-set s.metabins i j (some m) (omega (arith, v.room, v.few))

module _ (floor : ℕ) (l : Libc) where
  -- What was found lies in a valid superbin, and the pointer names the superbin it was given and a
  -- metabin that is there.
  abbrev pub FindsValid : ℕ → SearchResult l → Type 0
  FindsValid superbin (found s) =
      IsValid floor s.superbin
      × (s.pointer.superbin_id ≡ superbin)
      × (s.pointer.metabin_id < s.superbin.header.metabins_initialized)
  FindsValid superbin panicked = Unit
  FindsValid superbin no_fuel = Unit

  -- A metabin that was searched goes back to its place.
  pub put_back-IsValid :
      (s : Search l) (m : Metabin) (st : State l)
      → IsValid floor s.superbin
      → get s.superbin.metabins (get_or s.superbin.metabin_ring 0 0) ≡ some m
      → st.metabin.id ≡ m.id
      → IsMask st.metabin.bin_usage_mask
      → IsValid floor (put_back l st s).superbin
        × (st.metabin.id < s.superbin.header.metabins_initialized)
  put_back-IsValid s m st v e same mask =
      let (below, id, _) = candidate-lt s.superbin (get_or s.superbin.metabin_ring 0 0) m v e in
      (
        set-IsValid s.superbin (get_or s.superbin.metabin_ring 0 0) st.cache.bin_cache st.metabin v
            below (same ∙ id) mask,
        omega (arith, below, id, same),
      )

  -- A search of a valid superbin, however many rounds it is given, for one chunk or for eight: if
  -- it finds a chunk, the superbin is valid again, and the pointer keeps its superbin and names a
  -- metabin below the count of those that are there.
  pub allocate_bin-FindsValid :
      (c : Features) (chain_count fuel : ℕ) (s : Search l)
      → IsValid floor s.superbin
      → FindsValid s.pointer.superbin_id (allocate_bin l c fuel chain_count s)
  unfolding allocate_bin
  allocate_bin-FindsValid c chain_count zero s v = tt
  allocate_bin-FindsValid c chain_count (suc fuel) s v =
      candidate (get_metabin_candidate s.superbin) refl
        (λ s' v'. allocate_bin-FindsValid c chain_count fuel s' v')
    where
      superbin : ℕ
      superbin = s.pointer.superbin_id

      i : ℕ
      i = get_or s.superbin.metabin_ring 0 0

      Next : Type 0
      Next =
          (s' : Search l)
          → IsValid floor s'.superbin
          → FindsValid s'.pointer.superbin_id (allocate_bin l c fuel chain_count s')

      searched :
          (m : Metabin)
          → get s.superbin.metabins i ≡ some m
          → (r : Result l) → ResultNames l m.id superbin r
          → ResultMask l r
          → Next
          → FindsValid superbin (elim r [
            | Metabin.returned true st ↦
                found
                  (record (put_back l st s) { pointer = set_metabin_id st.pointer st.metabin.id })
            | Metabin.returned false st ↦
                allocate_bin l c fuel chain_count (record (put_back l st s) {
                  superbin = self_update_metaring (put_back l st s).superbin;
                })
            | Metabin.Result.panicked ↦ panicked
            | Metabin.Result.no_fuel ↦ no_fuel
          ])
      searched m e (Metabin.returned true st) names mask next =
          let (valid, below) = put_back-IsValid s m st v e names.0 mask in (valid, names.1, below)
      searched m e (Metabin.returned false st) names mask next =
          subst
            (λ k. FindsValid k (
              allocate_bin l c fuel chain_count (record (put_back l st s) {
                superbin = self_update_metaring (put_back l st s).superbin;
              })))
            names.1
            (next
              (record (put_back l st s) {
                superbin = self_update_metaring (put_back l st s).superbin;
              })
              (self_update_metaring_lem (put_back l st s).superbin
                (put_back-IsValid s m st v e names.0 mask).0).0)
      searched m e Metabin.Result.panicked names mask next = tt
      searched m e Metabin.Result.no_fuel names mask next = tt

      candidate :
          (o : Option Metabin)
          → get s.superbin.metabins i ≡ o
          → Next
          → FindsValid superbin (elim o [
            | none ↦ panicked
            | some m ↦ elim (Metabin.allocate_bin l c 257 chain_count (to_state l m s)) [
              | Metabin.returned true st ↦
                  found
                    (record (put_back l st s) { pointer = set_metabin_id st.pointer st.metabin.id })
              | Metabin.returned false st ↦
                  allocate_bin l c fuel chain_count (record (put_back l st s) {
                    superbin = self_update_metaring (put_back l st s).superbin;
                  })
              | Metabin.Result.panicked ↦ panicked
              | Metabin.Result.no_fuel ↦ no_fuel
            ]
          ])
      candidate none e next = tt
      candidate (some m) e next =
          searched m e (Metabin.allocate_bin l c 257 chain_count (to_state l m s))
            (allocate_bin-ResultNames l c chain_count 257 m.id superbin (to_state l m s) refl refl)
            (allocate_bin-ResultMask l c chain_count 257 (to_state l m s)
              (candidate-lt s.superbin i m v e).2)
            next
