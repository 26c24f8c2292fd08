-- ===== src/Simd/Lanes.antt =====
-- Memory as the list of its bytes, the words read from it (little endian, as on x86-64), and the
-- vector instructions of `std::arch::x86_64` that simd_avx2.rs and simd_sse4_1.rs call. A vector
-- of 8-bit lanes is the list of its bytes, and a vector of 16-bit lanes the list of its lanes.
use hyperion_rust.Common.{
  ℕ, ◌+◌, ◌-◌, ◌*◌, ◌/◌, ◌%◌, ◌<◌, List, [], ◌∷◌, Bool, take, drop, ◌==◌, if◌then◌else◌,
}

abbrev pub IsByte : ℕ → Type 0
IsByte b = b < 256

-- The little-endian word that a run of bytes holds.
unfoldable pub word_of : List ℕ → ℕ
word_of [] = 0
word_of (b ∷ bs) = b + 256 * word_of bs

-- `*(p as *const u64).add(i)`.
abbrev pub read_u64 : List ℕ → ℕ → ℕ
read_u64 p i = word_of (take 8 (drop (i * 8) p))

-- The bytes of a `[u32]`.
unfoldable pub bytes_of : List ℕ → List ℕ
bytes_of [] = []
bytes_of (w ∷ ws) =
    (w % 256) ∷ (w / 256 % 256) ∷ (w / 65536 % 256) ∷ (w / 16777216 % 256) ∷ bytes_of ws

-- `_mm256_loadu_si256` of bytes.
abbrev pub loadu_256 : List ℕ → List ℕ
loadu_256 p = take 32 p

-- `_mm256_cmpeq_epi8` with the zero vector: 0xFF where the byte is 0.
unfoldable pub cmpeq_zero_epi8 : List ℕ → List ℕ
cmpeq_zero_epi8 [] = []
cmpeq_zero_epi8 (b ∷ bs) = (if b == 0 then 255 else 0) ∷ cmpeq_zero_epi8 bs

-- `_mm256_movemask_epi8`: the top bit of each byte, the first byte's in bit 0.
unfoldable pub movemask_epi8 : List ℕ → ℕ
movemask_epi8 [] = 0
movemask_epi8 (b ∷ bs) = b / 128 + 2 * movemask_epi8 bs

-- `!x` on a 32-bit word.
abbrev pub not_u32 : ℕ → ℕ
not_u32 x = 4294967295 - x

-- The two search results of the source: an `Option`, and an `i32` that is -1 for nothing.
pub data Found : Type 0 where
  at : ℕ → Found
  minus_one : Found

-- The processor's features that `is_x86_feature_detected!` reports.
pub record Features : Type 0 where
  pub avx2 : Bool
  pub sse41 : Bool
