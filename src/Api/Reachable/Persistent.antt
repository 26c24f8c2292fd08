-- ===== src/Api/Reachable/Persistent.antt =====
-- Pointers over a sequence of operations of api.rs, those of `Step`.
use hyperion_rust.Common.{
  ℕ, ◌<◌, ◌≡◌, refl, subst, ◌⊎◌, inl, inr, true, Bool-cases, Option, none, some, get_or, arith,
}
use hyperion_rust.Simd.Lanes.{Features}
use hyperion_rust.Simd.AllBits.Laws.{HasVectors}
use hyperion_rust.Allocator.{Libc, Run, done, panic, ◌>>=◌}
use hyperion_rust.Pointer.{HyperionPointer, is_extended_pointer}
use hyperion_rust.Bin.{Bin}
use hyperion_rust.Metabin.{Metabin, bin_of}
use hyperion_rust.PointerArray.{get}
use hyperion_rust.Superbin.{new_superbin}
use hyperion_rust.Core.Search.Valid.{candidate-lt}
use hyperion_rust.Core.Chunks.{
  ArenaInner, Access, get_bin_ref, get_superbin_ref, get_chunk, get_chunk_pointer, unwrap,
}
use hyperion_rust.Core.Valid.{AreValid, one_each}
use hyperion_rust.Core.Allocate.{finished}
use hyperion_rust.Core.Allocate.Valid.{Kept, get_new_pointer-Kept}
use hyperion_rust.Api.{malloc_chained, get_pointer}
use hyperion_rust.Api.Reachable.{
  Step, Step-AreValid, Reachable, next, allocates, Reachable-AreValid,
}

module _ (l : Libc) where
  -- How many metabins each superbin of an arena has.
  counts : ArenaInner l → ℕ → ℕ
  counts a i = (get_or a.superbins i new_superbin).header.metabins_initialized

  counts-AreValid :
      (a : ArenaInner l) → AreValid one_each a.superbins → AreValid (counts a) a.superbins
  unfolding counts
  counts-AreValid a v = record {
    size = v.size;
    each = λ i lt. record {
      room = (v.each i lt).room;
      one_metabin = (v.each i lt).one_metabin;
      above = omega arith;
      few = (v.each i lt).few;
      present = (v.each i lt).present;
      absent = (v.each i lt).absent;
      ring_size = (v.each i lt).ring_size;
    };
  }

  -- A metabin that a pointer names stands below the count.
  metabin_id-lt :
      (a : ArenaInner l) (p : HyperionPointer) (b : Bin) (o : Option Metabin)
      → AreValid one_each a.superbins
      → p.superbin_id < 64
      → get (get_superbin_ref l a p).metabins p.metabin_id ≡ o
      → (unwrap o >>= λ m. done (bin_of m p.bin_id)) ≡ done b
      → p.metabin_id < counts a p.superbin_id
  unfolding counts
  metabin_id-lt a p b none v few e found = absurd (panic_done found)
    where
      panic_done : ◌≡◌ {A = Run Bin} panic (done b) → ⊥
      panic_done e' = cc e'
  metabin_id-lt a p b (some m) v few e found =
      (candidate-lt (get_superbin_ref l a p) p.metabin_id m (v.each p.superbin_id few) e).0

  -- What a pointer names is still there in an arena that has at least as many metabins.
  get_bin_ref-kept :
      (a a' : ArenaInner l) (p : HyperionPointer) (b : Bin)
      → AreValid one_each a.superbins
      → AreValid (counts a) a'.superbins
      → p.superbin_id < 64
      → get_bin_ref l a p ≡ done b
      → (m : Metabin) × (get (get_superbin_ref l a' p).metabins p.metabin_id ≡ some m)
  get_bin_ref-kept a a' p b v v' few found =
      let s = v'.each p.superbin_id few in
      let (m, e, _, _) = s.present p.metabin_id (
        omega (
          arith,
          s.above,
          metabin_id-lt a p b (get (get_superbin_ref l a p).metabins p.metabin_id) v few refl found,
        )) in
      (m, e)

module _ (l : Libc) (x : Access l) (c : Features) (dyn fuel : ℕ) (vec : HasVectors c) where
  -- Operations one after the other.
  pub data Steps : ArenaInner l → ArenaInner l → Type 0 where
    none_yet : {a : ArenaInner l} → Steps a a
    and_one : {a a' a'' : ArenaInner l} → Steps a a' → Step l x c dyn fuel a' a'' → Steps a a''

  Steps-AreValid :
      (floor : ℕ → ℕ) (a a' : ArenaInner l)
      → Steps a a'
      → AreValid floor a.superbins
      → AreValid floor a'.superbins
  Steps-AreValid floor a a' none_yet v = v
  Steps-AreValid floor a a'' (and_one {a' = a'} steps step) v =
      Step-AreValid l x c dyn fuel vec floor a' a'' step (Steps-AreValid floor a a' steps v)

  -- What is known of a pointer in an arena: it has one of the 64 superbins and a bin that is there,
  -- and if it is not extended, looking it up gives an address.
  abbrev pub Usable : ArenaInner l → HyperionPointer → Type 0
  Usable a p =
      (p.superbin_id < 64)
      × ((b : Bin) × (get_bin_ref l a p ≡ done b))
      × ((is_extended_pointer p ≡ true)
          ⊎ ((might_increment character : ℕ)
              → (r : ArenaInner l × ℕ) × (get_pointer l x dyn a p might_increment character
                  ≡ done r)))

  metabin-Usable :
      (a : ArenaInner l) (p : HyperionPointer) (m : Metabin)
      → p.superbin_id < 64
      → get (get_superbin_ref l a p).metabins p.metabin_id ≡ some m
      → Usable a p
  unfolding get_chunk get_chunk_pointer
  metabin-Usable a p m few e = (
    few,
    (bin_of m p.bin_id, rw e refl),
    elim (Bool-cases (is_extended_pointer p)) [
      | inl extended ↦ inl extended
      | inr plain ↦ inr (λ might_increment character. rw (plain, e) (_, refl))
    ],
  )

  -- With AVX2 or SSE4.1, in an arena that operations led to from one as it is made: a pointer that
  -- has one of the 64 superbins and names a bin that is there does so after any further
  -- operations, a release of it or of others among them; and if it is not extended, looking it up
  -- then does not panic. The operations, before and after, are malloc and malloc_chained,
  -- get_pointer, reallocate, free, register_chained_memory, get_chained_pointer,
  -- get_all_chained_pointer and teardown, each where it returned, with its rounds bounded by one
  -- number, and, for get_pointer, reallocate and free, with a pointer that has one of the 64
  -- superbins; any change of the memory between them; and initialize while every superbin of the
  -- arena has one metabin. An initialize of an arena with a superbin of more metabins is not among
  -- them.
  pub get_bin_ref-Usable :
      (a a' : ArenaInner l) (p : HyperionPointer) (b : Bin)
      → Reachable l x c dyn fuel a
      → p.superbin_id < 64
      → get_bin_ref l a p ≡ done b
      → Steps a a'
      → Usable a' p
  get_bin_ref-Usable a a' p b r few there steps =
      let v = Reachable-AreValid l x c dyn fuel vec a r in
      let (m, found) =
        get_bin_ref-kept l a a' p b v
          (Steps-AreValid (counts l a) a a' steps (counts-AreValid l a v)) few there in
      metabin-Usable a' p m few found

  -- So does a pointer that an allocation returned.
  malloc_chained-Usable :
      (a a1 a2 : ArenaInner l) (p : HyperionPointer) (size chain_count : ℕ)
      → Reachable l x c dyn fuel a
      → malloc_chained l x c dyn fuel a size chain_count ≡ finished (a1, p)
      → Steps a1 a2
      → Usable a2 p
  malloc_chained-Usable a a1 a2 p size chain_count r e steps =
      let v = Reachable-AreValid l x c dyn fuel vec a r in
      let (_, few, b, there) : Kept one_each l (finished (a1, p)) =
        subst (Kept one_each l) e
          (get_new_pointer-Kept one_each l x dyn c fuel size chain_count a v) in
      get_bin_ref-Usable a1 a2 p b (next r (allocates size chain_count e)) few there steps
