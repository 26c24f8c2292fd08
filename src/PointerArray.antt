-- ===== src/PointerArray.antt =====
-- memorymanager/pointer/pointer_array.rs: the array of optional metabins of a superbin.
pub mod Laws
use hyperion_rust.Common.{
  ℕ, zero, suc, ◌+◌, ◌-◌, ◌%◌, List, [], ◌∷◌, ◌++◌, ◌==◌, ltb, leb, if◌then◌else◌, Bool, true,
  false, not, Option, none, some, replicate, set, get_elem?, length,
}
use hyperion_rust.Simd.Lanes.{Features, bytes_of}
use hyperion_rust.Simd.AllBits.{all_bits_set_256}
use hyperion_rust.Metabin.{Metabin, default_metabin}

abbrev pub PointerArray : Type 0
PointerArray = List (Option Metabin)

-- POINTER_ARRAY_INCREMENT and META_MAXMETABINS.
abbrev pub increment : ℕ
increment = 16

abbrev pub max_metabins : ℕ
max_metabins = 16384

unfoldable pub new : ℕ → PointerArray
new n = replicate n (some default_metabin) ++ replicate (increment - n) none

-- Whether the index is below 16, and the array. The array has at least 16 entries.
unfoldable pub new_metabin_at : PointerArray → ℕ → Bool × PointerArray
new_metabin_at a index =
    if ltb index increment then (true, set a index (some default_metabin)) else (false, a)

abbrev pub flat : Option (Option Metabin) → Option Metabin
flat none = none
flat (some o) = o

-- `get` and `get_mut`: nothing out of bounds or at an empty entry.
abbrev pub get : PointerArray → ℕ → Option Metabin
get a index = flat (get_elem? a index)

unfoldable pub delete_metabin : Features → PointerArray → ℕ → Bool × PointerArray
delete_metabin c a index = if leb increment index then (false, a) else elim (get a index) [
  | none ↦ (false, a)
  | some m ↦
      if all_bits_set_256 c (some (bytes_of m.bin_usage_mask))
      then (true, set a index none)
      else (false, a)
]

unfoldable pub realloc_pointer_array : PointerArray → Bool × PointerArray
realloc_pointer_array a =
    if ltb max_metabins (length a + increment)
    then (false, a)
    else (true, a ++ replicate increment none)

unfoldable pub check_extend_pointer_array : PointerArray → ℕ → Bool × PointerArray
unfolding realloc_pointer_array
check_extend_pointer_array a current =
    if current % increment == 0 then realloc_pointer_array a else (true, a)
