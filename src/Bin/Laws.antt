-- ===== src/Bin/Laws.antt =====
-- What the operations of a bin do to its usage mask.
use hyperion_rust.Common.{
  ℕ, ◌-◌, ◌/◌, ◌<◌, ◌≤◌, ◌≡◌, refl, ap, ◌∙◌, ◌↔◌, List, [], ◌∷◌, ◌==◌, if◌then◌else◌, true, false,
  not, All, length, arith,
}
use hyperion_rust.Simd.Lanes.{Features, bytes_of}
use hyperion_rust.Simd.AllBits.Laws.{AllOnes, HasVectors, all_bits_set_4096_iff}
use hyperion_rust.Simd.AllBits.{all_bits_set_4096}
use hyperion_rust.Simd.Count.{count_set_bits, count_set_bits_full}
use hyperion_rust.Mask.{IsWord, free_at, length-toggle, toggle-IsWord, free_at-toggle}
use hyperion_rust.Mask.Bytes.{length-bytes_of, bytes_of-IsByte}
use hyperion_rust.Bin.{Bin, toggle_chunk_usage, check_is_unused, is_fully_occupied}

-- The mask is an array of 128 words.
pub record IsValid (b : Bin) : Type 0 where
  pub size : length b.chunk_usage_mask ≡ 128
  pub words : All IsWord b.chunk_usage_mask

-- Every chunk is free: every word has all its bits.
abbrev pub AllFree : List ℕ → Type 0
AllFree mask = All (λ w. w ≡ 4294967295) mask

AllOnes-bytes_of : (mask : List ℕ) → All IsWord mask → AllOnes (bytes_of mask) ↔ AllFree mask
unfolding bytes_of
AllOnes-bytes_of [] h = (λ _. tt, λ _. tt)
AllOnes-bytes_of (w ∷ ws) h = (
  λ o. (omega arith, (AllOnes-bytes_of ws h.1).0 (o.1.1.1.1)),
  λ f. (omega arith, (omega arith, (omega arith, (omega arith, (AllOnes-bytes_of ws h.1).1 f.1)))),
)

module _ (b : Bin) (v : IsValid b) where
  bytes_512 : length (bytes_of b.chunk_usage_mask) ≡ 512
  bytes_512 = omega (arith, length-bytes_of b.chunk_usage_mask, v.size)

  -- A bin with a mask of 128 words counts as unused exactly when its second chance is spent and
  -- all 4096 chunks are free.
  check_is_unused_iff :
      (check_is_unused b ≡ true) ↔ ((b.header.chance2nd_alloc ≡ 1) × AllFree b.chunk_usage_mask)
  unfolding check_is_unused
  check_is_unused_iff = (
    λ e. (ground arith, (AllOnes-bytes_of b.chunk_usage_mask v.words).0 (full.1.0 (ground arith))),
    λ h. ground (arith, h.0, full.1.1 ((AllOnes-bytes_of b.chunk_usage_mask v.words).1 h.1)),
  )
    where
      full :
          (count_set_bits (bytes_of b.chunk_usage_mask) ≤ 4096)
          × ((count_set_bits (bytes_of b.chunk_usage_mask) ≡ 4096)
              ↔ AllOnes (bytes_of b.chunk_usage_mask))
      full = count_set_bits_full _ (bytes_of-IsByte b.chunk_usage_mask) bytes_512

  -- With AVX2 or SSE4.1, a bin with a mask of 128 words counts as fully occupied exactly when not
  -- every chunk is free.
  pub is_fully_occupied_iff :
      (c : Features) → HasVectors c → (is_fully_occupied c b ≡ false) ↔ AllFree b.chunk_usage_mask
  unfolding is_fully_occupied
  is_fully_occupied_iff c vec = (
    λ e. (AllOnes-bytes_of b.chunk_usage_mask v.words).0 (test.0 (ground arith)),
    λ f. ap not (test.1 ((AllOnes-bytes_of b.chunk_usage_mask v.words).1 f)),
  )
    where
      test :
          (all_bits_set_4096 c (bytes_of b.chunk_usage_mask) ≡ true)
          ↔ AllOnes (bytes_of b.chunk_usage_mask)
      test = all_bits_set_4096_iff c _ vec (bytes_of-IsByte b.chunk_usage_mask) bytes_512

  -- Registering one of the 4096 chunks keeps a mask of 128 words one, flips that chunk's bit and
  -- no other, and returns the index of its word.
  toggle_chunk_usage_lem :
      (chunk_id : ℕ)
      → chunk_id < 4096
      → let r = toggle_chunk_usage b chunk_id in
        IsValid r.0
        × (r.1 ≡ chunk_id / 32)
        × ((j : ℕ)
            → free_at r.0.chunk_usage_mask j ≡ (
                if j == chunk_id
                then 1 - free_at b.chunk_usage_mask j
                else free_at b.chunk_usage_mask j))
  unfolding toggle_chunk_usage
  toggle_chunk_usage_lem chunk_id h = (
    record {
      size = length-toggle b.chunk_usage_mask chunk_id ∙ v.size;
      words = toggle-IsWord b.chunk_usage_mask chunk_id v.words;
    },
    refl,
    λ j. free_at-toggle b.chunk_usage_mask chunk_id j (omega (arith, v.size)),
  )
