-- ===== src/Superbin.antt =====
-- memorymanager/components/superbin.rs: a superbin's metabins and the ring of 16 metabin ids in
-- which the next one with free chunks comes first.
pub mod Sizes
pub mod Inject
pub mod Valid
pub mod Again
pub mod Update
pub mod Kept
use hyperion_rust.Common.{
  ℕ, zero, suc, ◌+◌, ◌-◌, ◌*◌, ◌/◌, ◌%◌, List, [], ◌∷◌, ◌++◌, ◌==◌, ltb, leb, if◌then◌else◌, Bool,
  true, false, not, Option, none, some, replicate, set, get_or, take, drop, ◌||◌,
}
use hyperion_rust.Simd.Lanes.{Features}
use hyperion_rust.Simd.Lane16.{sorted_insert_256_2}
use hyperion_rust.Metabin.{Metabin}
use hyperion_rust.Metabin
use hyperion_rust.PointerArray.{
  PointerArray, new, new_metabin_at, get, delete_metabin, check_extend_pointer_array,
}

pub record SuperbinHeader : Type 0 where
  pub superbin_id : ℕ
  pub size_of_bin : ℕ
  pub metabins_initialized : ℕ
  pub metabins_compression_iterator_id : ℕ

pub record Superbin : Type 0 where
  pub header : SuperbinHeader
  pub bin_cache : ℕ
  pub metabins : PointerArray
  pub metabin_ring : List ℕ

abbrev pub new_superbin : Superbin
new_superbin = record {
  header = record {
    superbin_id = 0;
    size_of_bin = 0;
    metabins_initialized = 0;
    metabins_compression_iterator_id = 0;
  };
  bin_cache = 0;
  metabins = new 1;
  metabin_ring = replicate 16 0;
}

abbrev pub has_cached_bin : Superbin → Bool
has_cached_bin s = not (s.bin_cache == 0)

abbrev pub clear_cache : Superbin → Superbin
clear_cache s = record s { bin_cache = 0 }

-- `size_of::<ExtendedHyperionPointer>()` is 16.
unfoldable pub get_datablock_size : Superbin → ℕ
get_datablock_size s = if s.header.superbin_id == 0 then 16 else s.header.superbin_id * 32 % 65536

-- `size` is a u32, and `size - 1` wraps.
unfoldable pub get_sblock_id : ℕ → ℕ
get_sblock_id size = if leb size 2016 then ((size + 4294967295) % 4294967296 / 32 + 1) % 256 else 0

abbrev pub set_metabins_initialized : Superbin → ℕ → Superbin
set_metabins_initialized s n = record s { header = record (s.header) { metabins_initialized = n } }

-- The metabin at an index of the array, replaced through `get_mut`.
pub update_metabin : PointerArray → ℕ → (Metabin → Metabin) → PointerArray
update_metabin a i f = elim (get a i) [ none ↦ a | some m ↦ set a i (some (f m)) ]

-- The id, sizes and counters.
abbrev pub with_header : Superbin → ℕ → Superbin
with_header s index =
    let named = record s { header = record (s.header) { superbin_id = index % 256 } } in
    record named {
      header = record (named.header) {
        size_of_bin = get_datablock_size named;
        metabins_compression_iterator_id = 0;
        metabins_initialized = 0;
      };
    }

pub initialize : Superbin → ℕ → Superbin
unfolding update_metabin
initialize s index =
    let s1 = with_header s index in
    let r = new_metabin_at s1.metabins 0 in
    let s2 = record s1 { metabins = r.1 } in
    if r.0
    then elim (get r.1 0) [
      | none ↦ s2
      | some m ↦
          set_metabins_initialized
            (record s2 {
              metabins = update_metabin r.1 0 (λ x. Metabin.initialize x 0);
              metabin_ring = set s2.metabin_ring 0 0;
            })
            (s2.header.metabins_initialized + 1)
    ]
    else s2

abbrev pub get_metabin_candidate : Superbin → Option Metabin
get_metabin_candidate s = get s.metabins (get_or s.metabin_ring 0 0)

-- `copy_within(source..15, source + 1)` and `copy_within(1..16, 0)`.
unfoldable pub shift_metabin_ring_right : List ℕ → ℕ → List ℕ
shift_metabin_ring_right ring source = take (source + 1) ring ++ drop source (take 15 ring)

unfoldable pub shift_metabin_ring_left : List ℕ → List ℕ
shift_metabin_ring_left ring = drop 1 ring ++ drop 15 ring

-- The loop over the ring: every occurrence of the id goes down by one.
pub lower_in_ring : ℕ → List ℕ → List ℕ
lower_in_ring id [] = []
lower_in_ring id (x ∷ xs) = (if x == id then x - 1 else x) ∷ lower_in_ring id xs

-- The guard of the match on `apply_sorted_insert`.
pub inject_at : List ℕ → ℕ → Option ℕ → List ℕ
inject_at ring id none = ring
inject_at ring id (some index) =
    if index == 0 || not (get_or ring (index - 1) 0 == id)
    then set (shift_metabin_ring_right ring index) index id
    else ring

module _ (c : Features) where
  -- One round of the loop, or `none` where it returns.
  unfoldable pub delete_round : Superbin → Option Superbin
  unfolding lower_in_ring
  delete_round s =
      let next_metabin_id = s.header.metabins_initialized in
      let r = delete_metabin c s.metabins next_metabin_id in
      if r.0
      then some (
          set_metabins_initialized
            (record s {
              metabins = r.1;
              metabin_ring = lower_in_ring next_metabin_id s.metabin_ring;
            })
            (s.header.metabins_initialized - 1))
      else none

  -- `while metabins_initialized > 1`: each round lowers it, so as many rounds are enough.
  delete_loop : ℕ → Superbin → Superbin
  delete_loop zero s = s
  delete_loop (suc n) s =
      if ltb 1 s.header.metabins_initialized
      then elim (delete_round s) [ none ↦ s | some s' ↦ delete_loop n s' ]
      else s

  pub delete_unused_metabins : Superbin → Superbin
  unfolding delete_loop
  delete_unused_metabins s = delete_loop s.header.metabins_initialized s

  pub inject_metabin_into_metaring : Superbin → Metabin → Superbin
  unfolding inject_at
  inject_metabin_into_metaring s metabin =
      let ring = s.metabin_ring in
      if ltb 0 metabin.id
      then record s {
        metabin_ring = inject_at ring metabin.id (sorted_insert_256_2 c metabin.id (some ring));
      }
      else if not (get_or ring 0 0 == 0)
      then record s { metabin_ring = set (shift_metabin_ring_right ring 0) 0 0 }
      else s

-- `metabins_initialized - 1` on a u16 wraps.
pub self_update_metaring : Superbin → Superbin
unfolding update_metabin
self_update_metaring s =
    let n = s.header.metabins_initialized in
    let extended = (check_extend_pointer_array s.metabins n).1 in
    let r = new_metabin_at extended n in
    let added =
      set_metabins_initialized
        (record s {
          metabins = update_metabin r.1 n (λ m. Metabin.initialize m n);
          metabin_ring = set s.metabin_ring 0 n;
        })
        (n + 1) in
    if get_or s.metabin_ring 0 0 == (n + 65535) % 65536
    then if leb 16384 n then s else if r.0 then added else record s { metabins = r.1 }
    else record s { metabin_ring = set (shift_metabin_ring_left s.metabin_ring) 15 n }
