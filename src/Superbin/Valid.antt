-- ===== src/Superbin/Valid.antt =====
-- The invariant of a superbin's metabins; a new superbin has it, and deleting unused metabins keeps it.
use hyperion_rust.Common.{
  ℕ, zero, suc, ◌<◌, ◌≤◌, ◌≡◌, refl, ◌∷◌, none, some, length, arith, replicate,
}
use hyperion_rust.Simd.Lanes.{Features}
use hyperion_rust.Metabin.{Metabin, default_metabin}
use hyperion_rust.Metabin
use hyperion_rust.Metabin.Allocate.{IsMask}
use hyperion_rust.Metabin.Masked.{initialize-IsMask}
use hyperion_rust.PointerArray.{PointerArray, new, new_metabin_at, get, delete_metabin}
use hyperion_rust.Superbin.{
  Superbin, new_superbin, initialize, update_metabin, delete_round, delete_loop, get_datablock_size,
  delete_unused_metabins,
}

-- There are `floor` metabins at least. Those below `metabins_initialized` are there under their ids, each with a mask of 8 words,
-- and no others.
pub record IsValid (floor : ℕ) (s : Superbin) : Type 0 where
  pub room : 16 ≤ length s.metabins
  pub one_metabin : 1 ≤ s.header.metabins_initialized
  pub above : floor ≤ s.header.metabins_initialized
  pub few : s.header.metabins_initialized ≤ 16
  pub present :
      (i : ℕ)
      → i < s.header.metabins_initialized
      → (m : Metabin) × (get s.metabins i ≡ some m) × (m.id ≡ i) × IsMask m.bin_usage_mask
  pub absent : (i : ℕ) → s.header.metabins_initialized ≤ i → get s.metabins i ≡ none
  pub ring_size : length s.metabin_ring ≡ 16

-- Deleting unused metabins changes nothing in a valid superbin.
pub delete_unused_metabins-eq :
    {floor : ℕ} (c : Features) (s : Superbin) → IsValid floor s → delete_unused_metabins c s ≡ s
unfolding delete_unused_metabins
delete_unused_metabins-eq c s v = go s.header.metabins_initialized
  where
    nothing : delete_round c s ≡ none
    nothing =
        unfold delete_round delete_metabin in
        ground (arith, v.absent s.header.metabins_initialized (omega arith))

    go : (n : ℕ) → delete_loop c n s ≡ s
    go zero = unfold delete_loop in refl
    go (suc n) = unfold delete_loop in ground (arith, nothing)

-- An array with one metabin in front of empty entries.
only_first : Metabin → PointerArray
only_first m = some m ∷ replicate 15 none

get-empty : (n j : ℕ) → get (replicate n none) j ≡ none
get-empty zero j = refl
get-empty (suc n) zero = refl
get-empty (suc n) (suc j) = get-empty n j

get-only_first : (m : Metabin) (j : ℕ) → 1 ≤ j → get (only_first m) j ≡ none
unfolding only_first
get-only_first m zero h = elim (nothing h) [ ]
  where
    nothing : 1 ≤ 0 → ⊥
    nothing h' = omega arith
get-only_first m (suc j) h = get-empty 15 j

-- Initialising a new superbin makes it valid: one metabin with id 0, first in the ring.
pub initialize-IsValid : (index : ℕ) → IsValid 1 (initialize new_superbin index)
unfolding initialize new new_metabin_at update_metabin Metabin.initialize only_first
initialize-IsValid index = record {
  room = omega arith;
  one_metabin = omega arith;
  above = omega arith;
  few = omega arith;
  present = first;
  absent = get-only_first (Metabin.initialize default_metabin 0);
  ring_size = refl;
}
  where
    beyond : {i : ℕ} → suc i < 1 → ⊥
    beyond h = omega arith

    first :
        (i : ℕ)
        → i < 1
        → (m : Metabin) × (get (only_first (Metabin.initialize default_metabin 0)) i ≡ some m)
          × (m.id ≡ i)
          × IsMask m.bin_usage_mask
    first zero h = (Metabin.initialize default_metabin 0, refl, refl, initialize-IsMask 0)
    first (suc i) h = elim (beyond h) [ ]

-- Initialising it again changes nothing.
pub initialize-initialize :
    (index : ℕ) → initialize (initialize new_superbin index) index ≡ initialize new_superbin index
unfolding initialize new new_metabin_at update_metabin get_datablock_size
initialize-initialize index = refl

pub initialize-superbin_id :
    (index : ℕ)
    → index < 256
    → ((initialize new_superbin index).header.superbin_id ≡ index)
      × ((initialize new_superbin index).header.metabins_initialized ≡ 1)
unfolding initialize new new_metabin_at update_metabin
initialize-superbin_id index h = (omega arith, refl)
