-- ===== src/Preprocessor/Permutation.antt =====
-- The tables permute the bytes.
use hyperion_rust.Common.{
  ℕ, suc, ◌<◌, ◌≡◌, refl, ◌==◌, ltb, if◌then◌else◌, Bool, true, ◌&&◌, arith, List, [], ◌∷◌, get_or,
}
use hyperion_rust.Common.Bits.{holds_until, holds_until-eq}
use hyperion_rust.Preprocessor.{encoding_map_perfopt, encoding_map_memoryopt}

-- The position of a value, counted from `i`.
index_from : ℕ → List ℕ → ℕ → ℕ
index_from i [] v = i
index_from i (x ∷ xs) v = if x == v then i else index_from (suc i) xs v

-- Where a table has a value.
unfoldable pub decode : List ℕ → ℕ → ℕ
unfolding index_from
decode table v = index_from 0 table v

-- The test of a byte: encoded or decoded it is a byte again, which goes back to it.
unfoldable there_and_back : List ℕ → ℕ → Bool
unfolding decode index_from
there_and_back table b =
    (ltb (get_or table b 256) 256 && (decode table (get_or table b 256) == b))
    && (ltb (decode table b) 256 && (get_or table (decode table b) 256 == b))

perfopt_table : holds_until (there_and_back encoding_map_perfopt) 256 ≡ true
unfolding holds_until there_and_back decode index_from
perfopt_table = refl

memoryopt_table : holds_until (there_and_back encoding_map_memoryopt) 256 ≡ true
unfolding holds_until there_and_back decode index_from
memoryopt_table = refl

-- A table that permutes the bytes: encoding and decoding stay within the bytes and are inverse.
pub Permutes : List ℕ → Type 0
Permutes table =
    (b : ℕ)
    → b < 256
    → (get_or table b 256 < 256)
      × (decode table (get_or table b 256) ≡ b)
      × (decode table b < 256)
      × (get_or table (decode table b) 256 ≡ b)

permutes : (table : List ℕ) → holds_until (there_and_back table) 256 ≡ true → Permutes table
unfolding Permutes there_and_back
permutes table e b h = parts (holds_until-eq (there_and_back table) 256 e b h)
  where
    parts :
        there_and_back table b ≡ true
        → (get_or table b 256 < 256)
          × (decode table (get_or table b 256) ≡ b)
          × (decode table b < 256)
          × (get_or table (decode table b) 256 ≡ b)
    parts t = ground arith

-- Both preprocessing tables permute the bytes, so that no two bytes of a key are mapped to one.
pub encoding_maps-Permutes : Permutes encoding_map_perfopt × Permutes encoding_map_memoryopt
encoding_maps-Permutes =
    (permutes encoding_map_perfopt perfopt_table, permutes encoding_map_memoryopt memoryopt_table)
