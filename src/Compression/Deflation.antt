-- ===== src/Compression/Deflation.antt =====
-- The deflation of a bin does not come to its end.
use hyperion_rust.Common.{
  ℕ, zero, suc, ◌+◌, ◌*◌, ◌/◌, ◌%◌, ◌^◌, ◌<◌, ◌≤◌, ◌≡◌, refl, ◌==◌, true, false, Option, none, some,
  List, [], ◌∷◌, get_elem?, length, arith, bit_and, replicate, ℕ_discrete,
}
use hyperion_rust.Allocator.{Libc, World, Run, done, panic, ◌>>=◌, auto_allocate_memory}
use hyperion_rust.Bin.{Bin}
use hyperion_rust.Compression.{Copied, pdb_copy_chunk, copy_chunks, perform_bin_deflation}

get_elem?_beyond : (xs : List ℕ) (i : ℕ) → length xs ≤ i → get_elem? xs i ≡ none
get_elem?_beyond [] i h = refl
get_elem?_beyond (x ∷ xs) zero h = absurd (omega arith)
get_elem?_beyond (x ∷ xs) (suc i) h = get_elem?_beyond xs i (omega arith)

-- Panics, whatever comes before.
>>=-panics {ℓ} :
    {A B : Type ℓ} (m : Run A) (f : A → Run B) → ((a : A) → f a ≡ panic) → (m >>= f) ≡ panic
>>=-panics (done a) f h = h a
>>=-panics panic f h = refl

module _ (l : Libc) (b : Bin) (size : ℕ) (words : length b.chunk_usage_mask ≡ 128) where
  copy_chunks_panics :
      (target n i : ℕ) (k : Copied l)
      → i ≤ 1024
      → 1024 < i + n
      → copy_chunks l b size target n i k ≡ panic
  unfolding copy_chunks
  copy_chunks_panics target zero i k h h' = absurd (omega arith)
  copy_chunks_panics target (suc n) i k h h' = elim (ℕ_discrete i 1024) [
    | yes last ↦ rw (get_elem?_beyond b.chunk_usage_mask (i / 8) (omega arith), copy_chunks) refl
    | no earlier ↦
        go (get_elem? b.chunk_usage_mask (i / 8))
          (λ k'. copy_chunks_panics target n (i + 1) k' (omega arith) (omega arith))
  ]
    where
      go :
          (o : Option ℕ)
          → ((k' : Copied l) → copy_chunks l b size target n (i + 1) k' ≡ panic)
          → elim o [
            | none ↦ panic
            | some word ↦ elim (bit_and word (2 ^ (i % 8)) == 0) [
              | true ↦ pdb_copy_chunk l b size i target k >>= copy_chunks l b size target n (i + 1)
              | false ↦ copy_chunks l b size target n (i + 1) k
            ]
          ]
            ≡ panic
      go none ih = refl
      go (some word) ih =
          elim (bit_and word (2 ^ (i % 8)) == 0)
            as (λ t.
              elim t [
                | true ↦
                    pdb_copy_chunk l b size i target k >>= copy_chunks l b size target n (i + 1)
                | false ↦ copy_chunks l b size target n (i + 1) k
              ]
              ≡ panic) [
                | true ↦
                    >>=-panics (pdb_copy_chunk l b size i target k)
                      (copy_chunks l b size target n (i + 1)) ih
                | false ↦ ih k
              ]

  -- The deflation of a bin with a mask of 128 words panics, whatever chunks are in use: at the latest
  -- it reads word 128 of the mask for chunk 1024.
  pub perform_bin_deflation_panics : (w : World l) → perform_bin_deflation l b size w ≡ panic
  unfolding perform_bin_deflation
  perform_bin_deflation_panics w = >>=-panics (auto_allocate_memory l (size * 256) w) _ (λ new.
      rw
        (copy_chunks_panics new.0 4096 0
          (record {
            nci_iterator = 0;
            nci = replicate 256 65535;
            world = record (new.2) { mem = l.memzero new.0 (size * 256) new.2.mem };
          })
          (omega arith) (omega arith))
        refl)
