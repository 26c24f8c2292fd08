-- ===== src/Superbin/Kept.antt =====
-- Putting a metabin back into the ring keeps a superbin valid.
use hyperion_rust.Common.{
  ℕ, ◌+◌, ◌-◌, ◌<◌, ◌≡◌, refl, ◌∙◌, List, take, drop, length, length-set, length-append,
  length-take, length-drop, sym, arith, Option, none, some, if_both, ltb, not, ◌==◌, ◌||◌, get_or,
  set,
}
use hyperion_rust.Simd.Lanes.{Features}
use hyperion_rust.Simd.AllBits.Laws.{HasVectors}
use hyperion_rust.Simd.Lane16.{gt_i16, sorted_insert_256_2}
use hyperion_rust.Simd.Lane16.Agree.{sorted_insert_256_2-eq}
use hyperion_rust.Superbin.Inject.{find_index-lt}
use hyperion_rust.Metabin.{Metabin}
use hyperion_rust.Superbin.{
  Superbin, inject_at, shift_metabin_ring_right, inject_metabin_into_metaring,
}
use hyperion_rust.Superbin.Valid.{IsValid}

length-shift_metabin_ring_right :
    (ring : List ℕ) (i : ℕ)
    → length ring ≡ 16
    → i < 16
    → length (shift_metabin_ring_right ring i) ≡ 16
unfolding shift_metabin_ring_right
length-shift_metabin_ring_right ring i h lt = omega (
  arith,
  length-append (take (i + 1) ring) (drop i (take 15 ring)),
  length-take (i + 1) ring,
  length-drop i (take 15 ring),
  length-take 15 ring,
)

length-inject_at :
    (ring : List ℕ) (id : ℕ) (o : Option ℕ)
    → length ring ≡ 16
    → ((i : ℕ) → o ≡ some i → i < 16)
    → length (inject_at ring id o) ≡ 16
unfolding inject_at
length-inject_at ring id none h lt = h
length-inject_at ring id (some i) h lt =
    if_both {A = List ℕ} (λ r. length r ≡ 16) (i == 0 || not (get_or ring (i - 1) 0 == id))
      (length-set (shift_metabin_ring_right ring i) i id
        ∙ length-shift_metabin_ring_right ring i h (lt i refl))
      h

-- With AVX2 or SSE4.1, a valid superbin stays valid when a metabin is put back into its ring.
pub inject_metabin_into_metaring-IsValid :
    {floor : ℕ} (c : Features) (s : Superbin) (m : Metabin)
    → HasVectors c
    → IsValid floor s
    → IsValid floor (inject_metabin_into_metaring c s m)
unfolding inject_metabin_into_metaring
inject_metabin_into_metaring-IsValid {floor = floor} c s m vec v =
    if_both (IsValid floor) (ltb 0 m.id)
      (with_ring (inject_at ring m.id (sorted_insert_256_2 c m.id (some ring)))
        (length-inject_at ring m.id (sorted_insert_256_2 c m.id (some ring)) v.ring_size found_lt))
      (if_both (IsValid floor) (not (get_or ring 0 0 == 0))
        (with_ring (set (shift_metabin_ring_right ring 0) 0 0) (
          length-set (shift_metabin_ring_right ring 0) 0 0
          ∙ length-shift_metabin_ring_right ring 0 v.ring_size (omega arith)))
        v)
  where
    ring : List ℕ
    ring = s.metabin_ring

    with_ring : (r : List ℕ) → length r ≡ 16 → IsValid floor (record s { metabin_ring = r })
    with_ring r h = record {
      room = v.room;
      one_metabin = v.one_metabin;
      above = v.above;
      few = v.few;
      present = v.present;
      absent = v.absent;
      ring_size = h;
    }

    found_lt : (i : ℕ) → sorted_insert_256_2 c m.id (some ring) ≡ some i → i < 16
    found_lt i e = omega (
      arith,
      v.ring_size,
      find_index-lt (λ x. gt_i16 x m.id) ring i
          (sym (sorted_insert_256_2-eq m.id ring v.ring_size c vec) ∙ e),
    )

-- It leaves the metabins as they are.
pub inject_metabin_into_metaring_metabins :
    (c : Features) (s : Superbin) (m : Metabin)
    → (inject_metabin_into_metaring c s m).metabins ≡ s.metabins
unfolding inject_metabin_into_metaring
inject_metabin_into_metaring_metabins c s m =
    if_both {A = Superbin} (λ r. r.metabins ≡ s.metabins) (ltb 0 m.id) refl
      (if_both {A = Superbin} (λ r. r.metabins ≡ s.metabins) (not (get_or s.metabin_ring 0 0 == 0))
        refl refl)
