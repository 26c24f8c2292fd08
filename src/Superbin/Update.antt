-- ===== src/Superbin/Update.antt =====
-- What updating the ring does to a superbin's metabins.
use hyperion_rust.Common.{
  ℕ, ◌+◌, ◌%◌, ◌<◌, ◌≤◌, ◌≡◌, ◌≢◌, refl, ◌∙◌, ◌++◌, ◌==◌, ltb, leb, if◌then◌else◌, Bool, true,
  false, Option, none, some, set, get_or, drop, length, arith, inl, inr, ◌⊎◌, length-append,
  length-drop, length-set, dec_lt, ℕ_discrete,
}
use hyperion_rust.Metabin.{Metabin, default_metabin}
use hyperion_rust.Metabin
use hyperion_rust.Metabin.Masked.{initialize-IsMask}
use hyperion_rust.PointerArray.{PointerArray, new_metabin_at, get, check_extend_pointer_array}
use hyperion_rust.PointerArray.Laws.{get-set, check_extend_pointer_array_lem}
use hyperion_rust.Superbin.{Superbin, update_metabin, self_update_metaring, shift_metabin_ring_left}
use hyperion_rust.Superbin.Valid.{IsValid}

get-update_metabin :
    (a : PointerArray) (i j : ℕ) (m : Metabin) (f : Metabin → Metabin)
    → i < length a
    → get a i ≡ some m
    → get (update_metabin a i f) j ≡ (if j == i then some (f m) else get a j)
unfolding update_metabin
get-update_metabin a i j m f h e = rw (e, update_metabin) (get-set a i j (some (f m)) h)

length-update_metabin :
    (a : PointerArray) (i : ℕ) (f : Metabin → Metabin) → length (update_metabin a i f) ≡ length a
unfolding update_metabin
length-update_metabin a i f = go (get a i)
  where
    go :
        (o : Option Metabin)
        → length (elim o [ none ↦ a | some m ↦ set a i (some (f m)) ]) ≡ length a
    go none = refl
    go (some m) = length-set a i (some (f m))

module _ (s : Superbin) where
  abbrev count : ℕ
  count = s.header.metabins_initialized

  abbrev extended : PointerArray
  extended = (check_extend_pointer_array s.metabins count).1

  abbrev with_new : PointerArray
  with_new = set extended count (some default_metabin)

  -- The superbin with one more metabin, first in the ring.
  abbrev pub grown : Superbin
  grown = record s {
    header = record (s.header) { metabins_initialized = count + 1 };
    metabins = update_metabin with_new count (λ m. Metabin.initialize m count);
    metabin_ring = set s.metabin_ring 0 count;
  }

  -- The superbin with the first id of the ring gone and the count behind the others.
  abbrev pub rotated : Superbin
  rotated = record s { metabin_ring = set (shift_metabin_ring_left s.metabin_ring) 15 count }

  at_last : ℕ → ℕ → Bool
  at_last x n = x == (n + 65535) % 65536

  pub update_grows :
      get_or s.metabin_ring 0 0 + 1 ≡ count → count < 16 → self_update_metaring s ≡ grown
  unfolding self_update_metaring new_metabin_at
  update_grows e h = rw (last, new_metabin_at, below, room) refl
    where
      last : (get_or s.metabin_ring 0 0 == (count + 65535) % 65536) ≡ true
      last = ground arith

      below : ltb count 16 ≡ true
      below = ground arith

      room : leb 16384 count ≡ false
      room = ground arith

  update_full :
      {floor : ℕ}
      → IsValid floor s
      → get_or s.metabin_ring 0 0 + 1 ≡ count
      → count ≡ 16
      → self_update_metaring s ≡ record s { metabins = extended }
  unfolding self_update_metaring new_metabin_at
  update_full v e h = rw (last, new_metabin_at, below, room) refl
    where
      last : (get_or s.metabin_ring 0 0 == (count + 65535) % 65536) ≡ true
      last = ground arith

      below : ltb count 16 ≡ false
      below = ground arith

      room : leb 16384 count ≡ false
      room = ground arith

  pub update_rotates :
      {floor : ℕ}
      → IsValid floor s
      → get_or s.metabin_ring 0 0 + 1 ≢ count
      → self_update_metaring s ≡ rotated
  unfolding self_update_metaring
  update_rotates v e = rw last refl
    where
      last : (get_or s.metabin_ring 0 0 == (count + 65535) % 65536) ≡ false
      last = ground arith

  room_extended : 16 ≤ length s.metabins → 16 ≤ length extended
  room_extended room = omega (arith, (check_extend_pointer_array_lem s.metabins count).1)

  pub get-grown :
      16 ≤ length s.metabins
      → count < 16
      → (j : ℕ)
      → get grown.metabins j
        ≡ (if j == count then some (Metabin.initialize default_metabin count) else get s.metabins j)
  get-grown room h j = ground (
    arith,
    get-update_metabin with_new count j default_metabin (λ m. Metabin.initialize m count)
        (omega (arith, room_extended room, length-set extended count (some default_metabin)))
        (there ∙ same_index),
    get-set extended count j (some default_metabin) (omega (arith, room_extended room)),
    (check_extend_pointer_array_lem s.metabins count).0 j,
  )
    where
      there :
          get with_new count ≡ (if count == count then some default_metabin else get extended count)
      there =
          get-set extended count count (some default_metabin) (omega (arith, room_extended room))

      same_index :
          (if count == count then some default_metabin else get extended count)
          ≡ some default_metabin
      same_index = ground arith

  grown-IsValid : {floor : ℕ} → IsValid floor s → count < 16 → IsValid floor grown
  grown-IsValid v h = record {
    room = omega (
      arith,
      room_extended v.room,
      length-set extended count (some default_metabin),
      length-update_metabin with_new count (λ m. Metabin.initialize m count),
    );
    one_metabin = omega arith;
    above = omega (arith, v.above);
    few = omega arith;
    present = λ i lt. elim (dec_lt i count) [
      | yes old ↦ (
        (v.present i old).0,
        get-grown v.room h i ∙ ground (arith, (v.present i old).1),
        (v.present i old).2,
        (v.present i old).3,
      )
      | no fresh ↦ (
        Metabin.initialize default_metabin count,
        get-grown v.room h i ∙ ground arith,
        unfold Metabin.initialize in omega arith,
        initialize-IsMask count,
      )
    ];
    absent = λ i le. get-grown v.room h i ∙ ground (arith, v.absent i);
    ring_size = length-set s.metabin_ring 0 count ∙ v.ring_size;
  }

  full-IsValid : {floor : ℕ} → IsValid floor s → IsValid floor (record s { metabins = extended })
  full-IsValid v = record {
    room = room_extended v.room;
    one_metabin = v.one_metabin;
    above = v.above;
    few = v.few;
    present = λ i lt. (
      (v.present i lt).0,
      (check_extend_pointer_array_lem s.metabins count).0 i ∙ (v.present i lt).1,
      (v.present i lt).2,
      (v.present i lt).3,
    );
    absent = λ i le. (check_extend_pointer_array_lem s.metabins count).0 i ∙ v.absent i le;
    ring_size = v.ring_size;
  }

  pub rotated-IsValid : {floor : ℕ} → IsValid floor s → IsValid floor rotated
  rotated-IsValid v = record {
    room = v.room;
    one_metabin = v.one_metabin;
    above = v.above;
    few = v.few;
    present = v.present;
    absent = v.absent;
    ring_size =
        length-set (shift_metabin_ring_left s.metabin_ring) 15 count
        ∙ (unfold shift_metabin_ring_left in shifted);
  }
    where
      shifted : length (drop 1 s.metabin_ring ++ drop 15 s.metabin_ring) ≡ 16
      shifted = omega (
        arith,
        v.ring_size,
        length-append (drop 1 s.metabin_ring) (drop 15 s.metabin_ring),
        length-drop 1 s.metabin_ring,
        length-drop 15 s.metabin_ring,
      )

-- What updating the ring of a valid superbin does: it adds a metabin and puts it first, if the last
-- metabin is first and there are fewer than 16; it changes neither ring nor header nor any metabin,
-- if there are 16; and it drops the first id and appends the count, if another is first.
abbrev pub Updated : Superbin → Superbin → Type 0
Updated s s' =
    ((s.header.metabins_initialized < 16)
      × (get_or s.metabin_ring 0 0 + 1 ≡ s.header.metabins_initialized)
      × (s'.header.metabins_initialized ≡ s.header.metabins_initialized + 1)
      × (s'.metabin_ring ≡ set s.metabin_ring 0 s.header.metabins_initialized)
      × ((j : ℕ)
          → get s'.metabins j ≡ (
              if j == s.header.metabins_initialized
              then some (Metabin.initialize default_metabin s.header.metabins_initialized)
              else get s.metabins j)))
    ⊎ (((s.header.metabins_initialized ≡ 16)
          × (get_or s.metabin_ring 0 0 ≡ 15)
          × (s'.header ≡ s.header)
          × (s'.metabin_ring ≡ s.metabin_ring)
          × ((j : ℕ) → get s'.metabins j ≡ get s.metabins j))
        ⊎ ((get_or s.metabin_ring 0 0 + 1 ≢ s.header.metabins_initialized)
            × (s'.header ≡ s.header)
            × (s'.metabin_ring
                ≡ set (shift_metabin_ring_left s.metabin_ring) 15 s.header.metabins_initialized)
            × (s'.metabins ≡ s.metabins)))

-- Updating the ring keeps a valid superbin valid, with as many metabins at least. If the last metabin is first in the ring and
-- there are fewer than 16, a new one is added under the next id and put first; if there are 16,
-- header, ring and metabins stay; and if another metabin is first, its id leaves the ring and the
-- count is appended.
pub self_update_metaring_lem :
    {floor : ℕ} (s : Superbin)
    → IsValid floor s
    → IsValid floor (self_update_metaring s) × Updated s (self_update_metaring s)
self_update_metaring_lem s v =
    elim (ℕ_discrete (get_or s.metabin_ring 0 0 + 1) s.header.metabins_initialized) [
      | yes e ↦ elim (dec_lt s.header.metabins_initialized 16) [
        | yes h ↦
            rw (update_grows s e h)
              (grown-IsValid s v h, inl (h, e, refl, refl, get-grown s v.room h))
        | no h ↦ rw (update_full s v e (omega (arith, v.few))) (
          full-IsValid s v,
          inr (
              inl (
                omega (arith, v.few),
                omega (arith, v.few),
                refl,
                refl,
                (check_extend_pointer_array_lem s.metabins s.header.metabins_initialized).0,
              )),
        )
      ]
      | no ne ↦ rw (update_rotates s v ne) (rotated-IsValid s v, inr (inr (ne, refl, refl, refl)))
    ]
