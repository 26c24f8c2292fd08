-- ===== src/Superbin/Sizes.antt =====
-- The size classes: which superbin serves a request, and how large its chunks are.
use hyperion_rust.Common.{ℕ, ◌+◌, ◌/◌, ◌<◌, ◌≤◌, ◌≡◌, arith, ◌⊎◌, ◌↔◌}
use hyperion_rust.Superbin.{Superbin, get_datablock_size, get_sblock_id}

-- A request of 1 to 2016 bytes goes to a superbin from 1 to 63 whose chunks hold it with less than
-- 32 bytes to spare. A larger one, of at most 32 bits, goes to superbin 0, whose chunks are the 16
-- bytes of an extended pointer. Size 0 goes there too, since its `size - 1` wraps.
pub get_sblock_id-get_datablock_size :
    (size : ℕ) (s : Superbin)
    → size < 4294967296
    → s.header.superbin_id ≡ get_sblock_id size
    → ((1 ≤ size)
        × (size ≤ 2016)
        × (1 ≤ get_sblock_id size)
        × (get_sblock_id size ≤ 63)
        × (size ≤ get_datablock_size s)
        × (get_datablock_size s < size + 32))
      ⊎ (((size ≡ 0) ⊎ (2016 < size)) × (get_sblock_id size ≡ 0) × (get_datablock_size s ≡ 16))
unfolding get_sblock_id get_datablock_size
get_sblock_id-get_datablock_size size s h e = ground arith

-- Larger requests never get smaller chunks: up to 2016 bytes the superbin's id grows with the size,
-- and two sizes share a superbin exactly if they round up to the same multiple of 32.
pub get_sblock_id_mono :
    (a b : ℕ)
    → 1 ≤ a
    → a ≤ b
    → b ≤ 2016
    → (get_sblock_id a ≤ get_sblock_id b)
      × ((get_sblock_id a ≡ get_sblock_id b) ↔ ((a + 31) / 32 ≡ (b + 31) / 32))
unfolding get_sblock_id
get_sblock_id_mono a b h k m = ground arith
