-- ===== src/Arena.antt =====
-- memorymanager/components/arena.rs: which arena the next client gets, and the superbins of an
-- arena; with the choice of the next metabin to compress from internals/compression.rs.
pub mod Laws
use hyperion_rust.Common.{ℕ, zero, suc, ◌+◌, ◌-◌, ◌%◌, leb, if◌then◌else◌, List, [], ◌∷◌}
use hyperion_rust.Superbin.{Superbin, new_superbin}
use hyperion_rust.Superbin

abbrev pub num_arenas : ℕ
num_arenas = 2

-- SUPERBLOCK_ARRAY_MAXSIZE.
abbrev pub superblock_array_maxsize : ℕ
superblock_array_maxsize = 64

-- The index of the arena and the value of `INIT_ITERATOR` afterwards: `fetch_sub` returns the old
-- value and wraps at 0.
unfoldable pub get_next_arena : ℕ → ℕ × ℕ
get_next_arena iterator =
    (iterator % num_arenas, (iterator + 18446744073709551615) % 18446744073709551616)

unfoldable pub get_arena_mut : ℕ → ℕ
get_arena_mut key = key % num_arenas

-- The superbins from an index on, each initialised with its index.
pub superbins_from : ℕ → ℕ → List Superbin
superbins_from zero index = []
superbins_from (suc n) index =
    Superbin.initialize new_superbin (index % 65536) ∷ superbins_from n (suc index)

-- The superbins of `Arena::default()`.
unfoldable pub default_superbins : List Superbin
default_superbins = superbins_from superblock_array_maxsize 0

-- The id, and the superbin with the iterator moved on.
unfoldable pub get_metabin_iterator : Superbin → ℕ × Superbin
get_metabin_iterator s =
    let id = s.header.metabins_compression_iterator_id in
    if leb s.header.metabins_initialized id
    then (0, record s { header = record (s.header) { metabins_compression_iterator_id = 0 } })
    else (id, record s { header = record (s.header) { metabins_compression_iterator_id = id + 1 } })
