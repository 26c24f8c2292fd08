-- ===== src/Bin/Allocate.antt =====
-- What the two chunk allocations of a bin return, and what they do to the usage mask.
use hyperion_rust.Common.{
  ℕ, zero, suc, ◌+◌, ◌-◌, ◌*◌, ◌/◌, ◌%◌, ◌<◌, ◌≤◌, ◌≡◌, ◌≢◌, refl, ap, sym, ◌∙◌, ◌⊎◌, List, [], ◌∷◌,
  ◌==◌, Bool, true, false, Option, none, some, length, get_or, set, arith, Bool-cases, inl, inr,
  get_or-set_ne,
}
use hyperion_rust.Common.Bits.{bit_at}
use hyperion_rust.Simd.Lanes.{Features, bytes_of}
use hyperion_rust.Simd.FirstBit.{get_index_first_set_bit_4096_2}
use hyperion_rust.Simd.FirstBit.Blocks.{IsSetIn, get_index_first_set_bit_4096_2-IsSetIn}
use hyperion_rust.Mask.{
  free_at, toggle, free_count, length-toggle, toggle-IsWord, free_count-toggle,
}
use hyperion_rust.Mask.Bytes.{length-bytes_of, bytes_of-IsByte, mem_bit-bytes_of}
use hyperion_rust.Pointer.{HyperionPointer, set_chunk_id}
use hyperion_rust.Bin.Laws.{IsValid}
use hyperion_rust.Bin.{
  Bin, find_full, clear_word, allocate_chunk_unchained, allocate_consecutive_chunks,
}

module _ (c : Features) (b : Bin) (p : HyperionPointer) (pseudorand : ℕ) where
  -- What an allocation of one chunk answers. It fails, and changes nothing, only if no chunk is
  -- free. Else it found a free chunk `i`, toggled chunk `i % 256` and wrote that chunk's word
  -- index into the pointer.
  abbrev pub Unchained : Bool × Bin × HyperionPointer × ℕ → Type 0
  Unchained r =
      ((r.0 ≡ false)
        × ((j : ℕ) → free_at b.chunk_usage_mask j ≡ 0)
        × (r.1 ≡ b)
        × (r.2 ≡ p)
        × (r.3 ≡ 0))
      ⊎ ((i : ℕ) × (r.0 ≡ true)
          × (i < 4096)
          × (free_at b.chunk_usage_mask i ≡ 1)
          × (r.1.chunk_usage_mask ≡ toggle b.chunk_usage_mask (i % 256))
          × (r.1.chunks ≡ b.chunks)
          × (r.1.header.chance2nd_alloc ≡ 0)
          × (r.2 ≡ set_chunk_id p (i % 256 / 32))
          × (r.3 ≡ i / 256))

  unchained :
      (o : Option ℕ) (next : ℕ)
      → IsSetIn (bytes_of b.chunk_usage_mask) o next
      → get_index_first_set_bit_4096_2 c (bytes_of b.chunk_usage_mask) pseudorand ≡ (o, next)
      → Unchained (allocate_chunk_unchained c b p pseudorand)
  unfolding allocate_chunk_unchained
  unchained none next h e = inl (
    rw (e, allocate_chunk_unchained),
    λ j. sym (mem_bit-bytes_of b.chunk_usage_mask j) ∙ h.0 j,
    rw (e, allocate_chunk_unchained),
    rw (e, allocate_chunk_unchained),
    rw (e, allocate_chunk_unchained) (ap (λ r. r.1) e ∙ h.1),
  )
  unchained (some i) next h e = inr (
    i,
    rw (e, allocate_chunk_unchained),
    h.0,
    sym (mem_bit-bytes_of b.chunk_usage_mask i) ∙ h.1,
    rw (e, allocate_chunk_unchained),
    rw (e, allocate_chunk_unchained),
    rw (e, allocate_chunk_unchained),
    rw (e, allocate_chunk_unchained),
    rw (e, allocate_chunk_unchained) (ap (λ r. r.1) e ∙ h.2),
  )

  -- The allocation of one chunk in a bin with a mask of 128 words, on every processor and from
  -- every start of the search: either no chunk is free, it fails and changes nothing, or it found
  -- a free chunk `i`, toggled chunk `i % 256` and wrote that chunk's word index into the pointer.
  pub allocate_chunk_unchained_lem :
      IsValid b → Unchained (allocate_chunk_unchained c b p pseudorand)
  allocate_chunk_unchained_lem v =
      unchained _ _
        (get_index_first_set_bit_4096_2-IsSetIn c _ (bytes_of-IsByte b.chunk_usage_mask)
          (omega (arith, length-bytes_of b.chunk_usage_mask, v.size)) pseudorand)
        refl

  -- Either way the mask stays an array of 128 words.
  pub allocate_chunk_unchained-IsValid :
      IsValid b → IsValid (allocate_chunk_unchained c b p pseudorand).1
  allocate_chunk_unchained-IsValid v = elim (allocate_chunk_unchained_lem v) [
    | inl h ↦ rw h.2 v
    | inr h ↦ record {
      size = rw h.4 (length-toggle b.chunk_usage_mask (h.0 % 256) ∙ v.size);
      words = rw h.4 (toggle-IsWord b.chunk_usage_mask (h.0 % 256) v.words);
    }
  ]

  -- A successful allocation of one chunk in a bin with a mask of 128 words never writes a chunk id
  -- above 7 into the pointer, although a bin has 4096 chunks.
  allocate_chunk_unchained-chunk_id :
      IsValid b
      → (allocate_chunk_unchained c b p pseudorand).0 ≡ true
      → (allocate_chunk_unchained c b p pseudorand).2.chunk_id < 8
  allocate_chunk_unchained-chunk_id v e = elim (allocate_chunk_unchained_lem v) [
    | inl h ↦ cc (h.0, e)
    | inr h ↦ rw h.7 (omega arith)
  ]

  -- After a successful allocation of one chunk in a bin with a mask of 128 words, one of the
  -- chunks below 256 has been toggled: the number of free chunks falls by one if that chunk was
  -- free, and grows by one if it was in use.
  free_count-allocate_chunk_unchained :
      IsValid b
      → (allocate_chunk_unchained c b p pseudorand).0 ≡ true
      → (i : ℕ) × (i < 256)
        × (free_count (allocate_chunk_unchained c b p pseudorand).1.chunk_usage_mask
              + free_at b.chunk_usage_mask i
            ≡ free_count b.chunk_usage_mask + (1 - free_at b.chunk_usage_mask i))
  free_count-allocate_chunk_unchained v e = elim (allocate_chunk_unchained_lem v) [
    | inl h ↦ absurd (false_ne_true (sym h.0 ∙ e))
    | inr h ↦ (
      h.0 % 256,
      omega arith,
      rw h.4 (free_count-toggle b.chunk_usage_mask (h.0 % 256) (omega (arith, v.size))),
    )
  ]
    where
      false_ne_true : false ≢ true
      false_ne_true q = cc

-- `find_full` stops at the first of the words that is 255.
find_full_lem :
    (mask : List ℕ) (n i : ℕ)
    → n ≤ length mask
    → ((find_full mask n i ≡ none) × ((k : ℕ) → k < n → get_or mask k 0 ≢ 255))
      ⊎ ((k : ℕ) × (k < n)
          × (find_full mask n i ≡ some (i + k))
          × (get_or mask k 0 ≡ 255)
          × ((j : ℕ) → j < k → get_or mask j 0 ≢ 255))
unfolding find_full
find_full_lem mask zero i h = inl (refl, λ k lt. absurd (omega arith))
find_full_lem [] (suc n) i h = absurd (omega arith)
find_full_lem (w ∷ ws) (suc n) i h = elim (Bool-cases (w == 255)) [
  | inl e ↦
      inr (0, omega arith, rw e (ap some (omega arith)), ground arith, λ j lt. absurd (omega arith))
  | inr e ↦ elim (find_full_lem ws n (i + 1) (omega arith)) [
    | inl r ↦ inl (rw e r.0, elim [ zero ↦ λ lt. ground arith | suc k ↦ λ lt. r.1 k (omega arith) ])
    | inr r ↦ inr (
      suc r.0,
      omega arith,
      rw e (r.2 ∙ ap some (omega arith)),
      r.3,
      elim [ zero ↦ λ lt. ground arith | suc j ↦ λ lt. r.4 j (omega arith) ],
    )
  ]
]

clear_word-eq : (mask : List ℕ) (i : ℕ) → clear_word mask i ≡ set mask i 0
unfolding clear_word
clear_word-eq [] i = refl
clear_word-eq (w ∷ ws) zero = refl
clear_word-eq (w ∷ ws) (suc i) = ap (λ r. w ∷ r) (clear_word-eq ws i)

-- The allocation of eight chunks in a bin with a mask of 128 words takes the first of the first
-- eight words that is 255: it clears that whole word, keeps the others and writes 8 times its
-- index into the pointer. It fails, and changes nothing, only if none of the eight words is 255.
pub allocate_consecutive_chunks_lem :
    (b : Bin) (p : HyperionPointer)
    → IsValid b
    → let r = allocate_consecutive_chunks b p in
      ((r ≡ (false, b, p)) × ((k : ℕ) → k < 8 → get_or b.chunk_usage_mask k 0 ≢ 255))
      ⊎ ((k : ℕ) × (k < 8)
          × (get_or b.chunk_usage_mask k 0 ≡ 255)
          × ((j : ℕ) → j < k → get_or b.chunk_usage_mask j 0 ≢ 255)
          × (r.0 ≡ true)
          × (r.1.chunk_usage_mask ≡ set b.chunk_usage_mask k 0)
          × (r.1.header.chance2nd_alloc ≡ 0)
          × (r.2 ≡ set_chunk_id p (8 * k)))
unfolding allocate_consecutive_chunks
allocate_consecutive_chunks_lem b p v =
    elim (find_full_lem b.chunk_usage_mask 8 0 (omega (arith, v.size))) [
      | inl r ↦ inl (rw (r.0, allocate_consecutive_chunks), r.1)
      | inr r ↦ inr (
        r.0,
        r.1,
        r.3,
        r.4,
        rw (r.2, allocate_consecutive_chunks),
        rw (r.2, allocate_consecutive_chunks)
            (ap (clear_word b.chunk_usage_mask) (omega arith)
              ∙ clear_word-eq b.chunk_usage_mask r.0),
        rw (r.2, allocate_consecutive_chunks),
        rw (r.2, allocate_consecutive_chunks) (ap (set_chunk_id p) (omega arith)),
      )
    ]

-- Where the word found is not the first, the chunks that the mask gives up are not those that the
-- pointer names: those of ids `8 * k` to `8 * k + 7` keep their bits.
pub allocate_consecutive_chunks_elsewhere :
    (b : Bin) (k i : ℕ)
    → 0 < k
    → k < 8
    → i < 8
    → free_at (set b.chunk_usage_mask k 0) (8 * k + i) ≡ free_at b.chunk_usage_mask (8 * k + i)
allocate_consecutive_chunks_elsewhere b k i pos hk hi =
    ap (λ w. bit_at w ((8 * k + i) % 32))
      (get_or-set_ne b.chunk_usage_mask k ((8 * k + i) / 32) 0 0 (omega arith))

-- Neither allocation writes the pointer's other ids.
pub bin_id-allocate_chunk_unchained :
    (c : Features) (b : Bin) (p : HyperionPointer) (pseudorand : ℕ)
    → (allocate_chunk_unchained c b p pseudorand).2.bin_id ≡ p.bin_id
unfolding allocate_chunk_unchained
bin_id-allocate_chunk_unchained c b p pseudorand = ground arith

pub bin_id-allocate_consecutive_chunks :
    (b : Bin) (p : HyperionPointer) → (allocate_consecutive_chunks b p).2.bin_id ≡ p.bin_id
unfolding allocate_consecutive_chunks
bin_id-allocate_consecutive_chunks b p = ground arith
