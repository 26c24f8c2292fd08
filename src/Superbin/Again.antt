-- ===== src/Superbin/Again.antt =====
-- What initialising a superbin that is in use does.
use hyperion_rust.Common.{
  ℕ, zero, suc, ◌<◌, ◌≤◌, ◌≡◌, refl, sym, ◌∙◌, ◌∷◌, [], Option, none, some, set, length-set, arith,
  dec_lt,
}
use hyperion_rust.Metabin.{Metabin, default_metabin}
use hyperion_rust.Metabin
use hyperion_rust.Metabin.Masked.{initialize-IsMask}
use hyperion_rust.Metabin.Allocate.{IsMask}
use hyperion_rust.PointerArray.{PointerArray, get, new_metabin_at}
use hyperion_rust.Superbin.{
  Superbin, with_header, initialize, update_metabin, set_metabins_initialized, get_datablock_size,
}
use hyperion_rust.Superbin.Valid.{IsValid}

abbrev with_metabins : Superbin → PointerArray → Superbin
with_metabins s a = record s { metabins = a }

-- The superbin with one metabin under id 0, and what stood behind the first entry.
abbrev restarted : Superbin → ℕ → PointerArray → Superbin
restarted s index rest = record (set_metabins_initialized (with_header s index) 1) {
  metabins = some (Metabin.initialize default_metabin 0) ∷ rest;
  metabin_ring = set s.metabin_ring 0 0;
}

initialize-restarted :
    (s : Superbin) (index : ℕ) (o : Option Metabin) (rest : PointerArray)
    → initialize (with_metabins s (o ∷ rest)) index
      ≡ restarted (with_metabins s (o ∷ rest)) index rest
unfolding initialize new_metabin_at update_metabin get_datablock_size
initialize-restarted s index o rest = refl

-- One new metabin counts, the other entries are as they were, and the superbin is valid again just if
-- it had one metabin.
abbrev pub Restarts : Superbin → Superbin → Type 0
Restarts s s' =
    (s'.header.metabins_initialized ≡ 1)
    × (get s'.metabins 0 ≡ some (Metabin.initialize default_metabin 0))
    × ((j : ℕ) → get s'.metabins (suc j) ≡ get s.metabins (suc j))
    × (s.header.metabins_initialized ≡ 1 → IsValid 1 s')
    × (IsValid 1 s' → s.header.metabins_initialized ≡ 1)

some-none : {m : Metabin} → some m ≡ none → ⊥
some-none e = cc e

module _ (s : Superbin) (index : ℕ) (o : Option Metabin) (rest : PointerArray)
    (v : IsValid 1 (with_metabins s (o ∷ rest))) where
  one-IsValid :
      s.header.metabins_initialized ≡ 1
      → IsValid 1 (restarted (with_metabins s (o ∷ rest)) index rest)
  one-IsValid e = record {
    room = v.room;
    one_metabin = omega arith;
    above = omega arith;
    few = omega arith;
    present = first;
    absent = beyond;
    ring_size = length-set s.metabin_ring 0 0 ∙ v.ring_size;
  }
    where
      first :
          (i : ℕ)
          → i < 1
          → (m : Metabin) × (get (some (Metabin.initialize default_metabin 0) ∷ rest) i ≡ some m)
            × (m.id ≡ i)
            × IsMask m.bin_usage_mask
      first zero h = (
        Metabin.initialize default_metabin 0,
        refl,
        unfold Metabin.initialize in refl,
        initialize-IsMask 0,
      )
      first (suc i) h = absurd (omega arith)

      beyond : (i : ℕ) → 1 ≤ i → get (some (Metabin.initialize default_metabin 0) ∷ rest) i ≡ none
      beyond zero h = absurd (omega arith)
      beyond (suc i) h = v.absent (suc i) (omega (arith, e))

  -- A second metabin is still there, above the count.
  IsValid-one :
      IsValid 1 (restarted (with_metabins s (o ∷ rest)) index rest)
      → s.header.metabins_initialized ≡ 1
  IsValid-one v' = elim (dec_lt 1 s.header.metabins_initialized) [
    | yes more ↦ absurd (some-none (sym (v.present 1 more).1 ∙ v'.absent 1 (omega arith)))
    | no one ↦ omega (arith, v.above, one)
  ]

restart :
    (s : Superbin) (index : ℕ) (a : PointerArray)
    → IsValid 1 (with_metabins s a)
    → Restarts (with_metabins s a) (initialize (with_metabins s a) index)
restart s index [] v = absurd (nothing v.room)
  where
    nothing : 16 ≤ 0 → ⊥
    nothing h = omega arith
restart s index (o ∷ rest) v =
    rw (initialize-restarted s index o rest)
      (refl, refl, λ j. refl, one-IsValid s index o rest v, IsValid-one s index o rest v)

-- Initialising a valid superbin again, under any index, leaves one metabin in its count, a new one
-- with id 0, and every other metabin where it was; so that the superbin is valid again if and only
-- if it had one metabin.
pub initialize-Restarts : (s : Superbin) (index : ℕ) → IsValid 1 s → Restarts s (initialize s index)
initialize-Restarts s index v = restart s index s.metabins v

-- A valid superbin with one metabin is valid and has one metabin when it is initialised again.
pub initialize-again :
    {floor : ℕ} (s : Superbin) (index : ℕ)
    → IsValid floor s
    → s.header.metabins_initialized ≡ 1
    → IsValid floor (initialize s index) × ((initialize s index).header.metabins_initialized ≡ 1)
initialize-again {floor = floor} s index v one = (valid, restarts.0)
  where
    v1 : IsValid 1 s
    v1 = record {
      room = v.room;
      one_metabin = v.one_metabin;
      above = v.one_metabin;
      few = v.few;
      present = v.present;
      absent = v.absent;
      ring_size = v.ring_size;
    }

    restarts : Restarts s (initialize s index)
    restarts = initialize-Restarts s index v1

    again : IsValid 1 (initialize s index)
    again = let (_, _, _, same, _) = restarts in same one

    valid : IsValid floor (initialize s index)
    valid = record {
      room = again.room;
      one_metabin = again.one_metabin;
      above = omega (arith, v.above, restarts.0);
      few = again.few;
      present = again.present;
      absent = again.absent;
      ring_size = again.ring_size;
    }
