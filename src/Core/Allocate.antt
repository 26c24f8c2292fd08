-- ===== src/Core/Allocate.antt =====
-- core.rs over an arena: `get_new_pointer` and `create_new_chunks` up to the release of the old
-- chunk.
pub mod RoundTrip
pub mod Valid
pub mod Bounded
use hyperion_rust.Common.{ℕ, ◌+◌, ◌-◌, ◌*◌, ◌%◌, if◌then◌else◌, Option, none, some, set}
use hyperion_rust.Simd.Lanes.{Features}
use hyperion_rust.Allocator.{Libc, World, Run, done, panic, AllocatedBy, allocate_heap}
use hyperion_rust.Pointer.{
  HyperionPointer, default_pointer, set_superbin_id, is_extended_pointer, CompressionState,
}
use hyperion_rust.Metabin.{Metabin, bin_of}
use hyperion_rust.Superbin.{get_sblock_id}
use hyperion_rust.Core.{ExtendedHyperionPointer, roundup, set_flags, as_i16, as_i32}
use hyperion_rust.Core.Search
use hyperion_rust.Core.Search.{Search, SearchResult}
use hyperion_rust.Core.Chunks.{
  Access, ArenaInner, get_superbin_ref, put_superbin, get_metabin_ref, extended_address,
}

-- The result of code that searches a superbin: it can panic, and it can run out of rounds.
pub data Outcome {ℓ} (A : Type ℓ) : Type ℓ where
  finished : A → Outcome A
  panicked no_fuel : Outcome A

abbrev pub and_then {ℓ κ} : {A : Type ℓ} {B : Type κ} → Outcome A → (A → Outcome B) → Outcome B
and_then (finished a) f = f a
and_then panicked f = panicked
and_then no_fuel f = no_fuel

-- Code that cannot run out of rounds.
abbrev pub lift {ℓ} : {A : Type ℓ} → Run A → Outcome A
lift (done a) = finished a
lift panic = panicked

module _ (l : Libc) (x : Access l) where
  -- The flags of a new extended pointer of a size, whose data were allocated.
  abbrev pub new_extended : ℕ → ℕ → ℕ → ExtendedHyperionPointer → ExtendedHyperionPointer
  new_extended dyn size address e =
      set_flags (record e { alloced_by = AllocatedBy.heap; data_pointer = address }) (as_i32 size)
        (as_i16 (roundup dyn size - size)) 0 0 CompressionState.uncompressed 0

  -- The part of `get_new_pointer` after the search: an extended pointer gets its data.
  unfoldable pub fill_pointer : ℕ → ℕ → ArenaInner l → HyperionPointer → Metabin → ArenaInner l
  fill_pointer dyn size a p m =
      let address = extended_address (bin_of m p.bin_id) p in
      let r = allocate_heap l (roundup dyn size) a.world in
      if is_extended_pointer p
      then record a {
        world = record (r.1) {
          mem = x.store address (new_extended dyn size r.0 (x.load address r.1.mem)) r.1.mem;
        };
      }
      else a

  -- What is left to do once the search has returned.
  abbrev pub after_search :
      ℕ
      → ℕ
      → ArenaInner l
      → HyperionPointer
      → SearchResult l
      → Outcome (ArenaInner l × HyperionPointer)
  after_search dyn size a p0 (Search.found s) =
      let a' = record (put_superbin l a p0 s.superbin) { world = s.world } in
      and_then (lift (get_metabin_ref l a' s.pointer))
        (λ m. finished (fill_pointer dyn size a' s.pointer m, s.pointer))
  after_search dyn size a p0 Search.panicked = panicked
  after_search dyn size a p0 Search.no_fuel = no_fuel

  -- `get_new_pointer`. The size is cast to a u32 for the choice of the superbin.
  unfoldable pub get_new_pointer :
      Features → ℕ → ℕ → ℕ → ℕ → ArenaInner l → Outcome (ArenaInner l × HyperionPointer)
  get_new_pointer c dyn fuel size chained_counter a =
      let p0 = set_superbin_id default_pointer (get_sblock_id (size % 4294967296)) in
      after_search dyn size a p0 (
        Search.allocate_bin l c fuel chained_counter
          (record { superbin = get_superbin_ref l a p0; pointer = p0; world = a.world }))
