-- ===== src/Bin/Named.antt =====
-- An allocation in a bin leaves the pointer's superbin as it is.
use hyperion_rust.Common.{ℕ, ◌*◌, ◌≡◌, refl, true, false, Option, none, some, Bool}
use hyperion_rust.Simd.Lanes.{Features}
use hyperion_rust.Pointer.{HyperionPointer, set_chunk_id}
use hyperion_rust.Bin.{
  Bin, set_chance2nd_alloc, toggle_chunk_usage, new_chunk_allocation_space_available,
  allocate_chunk_unchained, allocate_consecutive_chunks, find_full, clear_word,
}

pub allocate_chunk_unchained-superbin_id :
    (c : Features) (b : Bin) (p : HyperionPointer) (pseudorand : ℕ)
    → (allocate_chunk_unchained c b p pseudorand).2.superbin_id ≡ p.superbin_id
unfolding allocate_chunk_unchained
allocate_chunk_unchained-superbin_id c b p pseudorand =
    go (new_chunk_allocation_space_available c b pseudorand)
  where
    go :
        (r : Option ℕ × ℕ)
        → (elim r.0 as (λ _. Bool × Bin × HyperionPointer × ℕ) [
          | none ↦ (false, b, p, r.1)
          | some candidate ↦ (
            true,
            set_chance2nd_alloc 0 (toggle_chunk_usage b candidate).0,
            set_chunk_id p (toggle_chunk_usage b candidate).1,
            r.1,
          )
        ]).2.superbin_id
          ≡ p.superbin_id
    go (none, n) = refl
    go (some i, n) = refl

pub allocate_consecutive_chunks-superbin_id :
    (b : Bin) (p : HyperionPointer)
    → (allocate_consecutive_chunks b p).2.superbin_id ≡ p.superbin_id
unfolding allocate_consecutive_chunks
allocate_consecutive_chunks-superbin_id b p = go (find_full b.chunk_usage_mask 8 0)
  where
    go :
        (o : Option ℕ)
        → (elim o as (λ _. Bool × Bin × HyperionPointer) [
          | none ↦ (false, b, p)
          | some i ↦ (
            true,
            set_chance2nd_alloc 0 (record b { chunk_usage_mask = clear_word b.chunk_usage_mask i }),
            set_chunk_id p (i * 8),
          )
        ]).2.superbin_id
          ≡ p.superbin_id
    go none = refl
    go (some i) = refl
