-- ===== src/Arena/Laws.antt =====
-- The arenas take turns, a new arena's superbins are valid, and the iterator over metabins stays
-- within them.
use hyperion_rust.Common.{
  ℕ, zero, suc, length, refl, ◌+◌, ◌<◌, ◌≤◌, ◌≡◌, ap, ◌∙◌, arith, get_or, dec_le,
}
use hyperion_rust.Superbin.{Superbin, new_superbin, initialize}
use hyperion_rust.Superbin.Valid.{IsValid, initialize-IsValid, initialize-superbin_id}
use hyperion_rust.Arena.{get_next_arena, superbins_from, default_superbins, get_metabin_iterator}

-- Whatever a 64-bit iterator holds, also when it wraps, an arena index is below 2, and the call
-- after gives the other arena.
pub get_next_arena-alternates :
    (iterator : ℕ)
    → iterator < 18446744073709551616
    → ((get_next_arena iterator).0 < 2)
      × ((get_next_arena (get_next_arena iterator).1).0 + (get_next_arena iterator).0 ≡ 1)
      × ((get_next_arena iterator).1 < 18446744073709551616)
unfolding get_next_arena
get_next_arena-alternates iterator h = (omega arith, omega arith, omega arith)

superbins_from_lem :
    (n index i : ℕ)
    → i < n
    → index + n ≤ 65536
    → get_or (superbins_from n index) i new_superbin ≡ initialize new_superbin (index + i)
unfolding superbins_from
superbins_from_lem zero index i h room = absurd (omega arith)
superbins_from_lem (suc n) index zero h room = ap (initialize new_superbin) (omega arith)
superbins_from_lem (suc n) index (suc i) h room =
    superbins_from_lem n (suc index) i (omega arith) (omega arith)
    ∙ ap (initialize new_superbin) (omega arith)

-- Each of the 64 superbins of a new arena is a new superbin that was initialised with its index.
pub get_or-default_superbins :
    (i : ℕ) → i < 64 → get_or default_superbins i new_superbin ≡ initialize new_superbin i
unfolding default_superbins
get_or-default_superbins i h =
    superbins_from_lem 64 0 i h (omega arith)
    ∙ ap (initialize new_superbin) {x = 0 + i} (omega arith)

-- Each of the 64 superbins of a new arena is valid has its index as its id, and one
-- metabin.
pub default_superbins-IsValid :
    (i : ℕ)
    → i < 64
    → IsValid 1 (get_or default_superbins i new_superbin)
      × ((get_or default_superbins i new_superbin).header.superbin_id ≡ i)
      × ((get_or default_superbins i new_superbin).header.metabins_initialized ≡ 1)
default_superbins-IsValid i h = rw (get_or-default_superbins i h) (
  initialize-IsValid i,
  (initialize-superbin_id i (omega arith)).0,
  (initialize-superbin_id i (omega arith)).1,
)

-- In a superbin with a metabin, the metabin that is compressed next is one of those initialised,
-- and the iterator stays at most at their count.
get_metabin_iterator-bound :
    (s : Superbin)
    → 1 ≤ s.header.metabins_initialized
    → ((get_metabin_iterator s).0 < s.header.metabins_initialized)
      × ((get_metabin_iterator s).1.header.metabins_compression_iterator_id
          ≤ s.header.metabins_initialized)
unfolding get_metabin_iterator
get_metabin_iterator-bound s h =
    elim (dec_le s.header.metabins_initialized s.header.metabins_compression_iterator_id) [
      | yes past ↦ ground arith
      | no within ↦ ground arith
    ]

length-superbins_from : (n index : ℕ) → length (superbins_from n index) ≡ n
unfolding superbins_from
length-superbins_from zero index = refl
length-superbins_from (suc n) index = ap suc (length-superbins_from n (suc index))

pub length-default_superbins : length default_superbins ≡ 64
unfolding default_superbins
length-default_superbins = length-superbins_from 64 0
