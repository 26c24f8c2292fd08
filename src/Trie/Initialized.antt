-- ===== src/Trie/Initialized.antt =====
-- What a new container holds.
use hyperion_rust.Common.{arith, ◌≤◌, ◌<◌, ℕ, ◌%◌, ◌≡◌, refl, ap, false, Option, none, some}
use hyperion_rust.Simd.Lanes.{Features}
use hyperion_rust.Allocator.{Libc, Run, done, panic, ◌>>=◌}
use hyperion_rust.Pointer.{HyperionPointer, default_pointer, set_superbin_id, is_extended_pointer}
use hyperion_rust.Bin.{Bin}
use hyperion_rust.Metabin.{Metabin, bin_of}
use hyperion_rust.PointerArray.{get}
use hyperion_rust.Superbin.{Superbin, get_sblock_id}
use hyperion_rust.Superbin.Valid.{IsValid}
use hyperion_rust.Core.Search.Ends.{Ends}
use hyperion_rust.Core.Search.Bounded.{allocate_bin-Bounded}
use hyperion_rust.Core.Search.Valid.{FindsValid, allocate_bin-FindsValid}
use hyperion_rust.Core.Valid.{AreValid, one_each}
use hyperion_rust.Core.Allocate.Valid.{get_sblock_id-lt, Kept, get_new_pointer-Kept}
use hyperion_rust.Core.Search
use hyperion_rust.Core.Search.{SearchResult}
use hyperion_rust.Core.Chunks.{
  Access, ArenaInner, get_metabin_ref, get_superbin_ref, put_superbin, get_chunk, get_bin_ref,
  unwrap,
}
use hyperion_rust.Trie.Lookup.{read, chunk_address, get_chunk-plain, get_chunk-again}
use hyperion_rust.Core.Allocate.{
  Outcome, finished, panicked, no_fuel, and_then, lift, after_search, fill_pointer, get_new_pointer,
}
use hyperion_rust.Trie.{ContainerAccess, initial_head, write_head, initialize_container}

-- It did not run out of rounds, and what it returned, if it did not panic, has the property.
pub Returns {ℓ} : {A : Type ℓ} → (A → Type 0) → Outcome A → Type 0
Returns P (finished a) = P a
Returns P panicked = Unit
Returns P no_fuel = ⊥

Returns-and_then {ℓ κ} :
    {A : Type ℓ} {B : Type κ} (Q : A → Type 0) (P : B → Type 0) (o : Outcome A) (f : A → Outcome B)
    → Returns Q o
    → ((a : A) → Q a → Returns P (f a))
    → Returns P (and_then o f)
unfolding Returns
Returns-and_then Q P (finished a) f h g = g a h
Returns-and_then Q P panicked f h g = tt
Returns-and_then Q P no_fuel f h g = absurd h

Returns-lift {ℓ} :
    {A : Type ℓ} (P : A → Type 0) (r : Run A) → ((a : A) → r ≡ done a → P a) → Returns P (lift r)
unfolding Returns
Returns-lift P (done a) h = h a refl
Returns-lift P panic h = tt

module _ (l : Libc) (x : Access l) (c : Features) (dyn : ℕ) where
  -- The pointer keeps the superbin that was searched.
  abbrev pub InSuperbin : ℕ → ArenaInner l × HyperionPointer → Type 0
  InSuperbin superbin r = r.1.superbin_id ≡ superbin

  after_search-Returns :
      (size chain_count superbin floor : ℕ) (a : ArenaInner l) (p : HyperionPointer)
      (r : SearchResult l)
      → Ends l c chain_count r
      → FindsValid floor l superbin r
      → Returns (InSuperbin superbin) (after_search l x dyn size a p r)
  unfolding Returns
  after_search-Returns size chain_count superbin floor a p (Search.found s) h found =
      Returns-and_then (λ m. Unit) (InSuperbin superbin)
        (lift (
          get_metabin_ref l (record (put_superbin l a p s.superbin) { world = s.world }) s.pointer))
        (λ m. finished (
          fill_pointer l x dyn size (record (put_superbin l a p s.superbin) { world = s.world })
              s.pointer m,
          s.pointer,
        ))
        (Returns-lift (λ m. Unit)
          (get_metabin_ref l (record (put_superbin l a p s.superbin) { world = s.world }) s.pointer)
          (λ m e. tt))
        (λ m h'. found.1)
  after_search-Returns size chain_count superbin floor a p Search.panicked h found = tt
  after_search-Returns size chain_count superbin floor a p Search.no_fuel h found = h

  -- What is known of an allocation that returned: the arena is valid, and the pointer has the
  -- superbin that was searched and a bin that is there.
  abbrev Found : ℕ → ArenaInner l × HyperionPointer → Type 0
  Found superbin (a, p) =
      InSuperbin superbin (a, p)
      × AreValid one_each a.superbins
      × ((b : Bin) × (get_bin_ref l a p ≡ done b))

  Returns-Found :
      (superbin : ℕ) (o : Outcome (ArenaInner l × HyperionPointer))
      → Returns (InSuperbin superbin) o
      → Kept one_each l o
      → Returns (Found superbin) o
  unfolding Returns
  Returns-Found superbin (finished r) h k = let (v, _, b, e) = k in (h, v, (b, e))
  Returns-Found superbin panicked h k = tt
  Returns-Found superbin no_fuel h k = h

  metabin_there :
      (a : ArenaInner l) (p : HyperionPointer) (b : Bin) (o : Option Metabin)
      → get (get_superbin_ref l a p).metabins p.metabin_id ≡ o
      → (unwrap o >>= λ m. done (bin_of m p.bin_id)) ≡ done b
      → (m : Metabin) × (get (get_superbin_ref l a p).metabins p.metabin_id ≡ some m)
  metabin_there a p b none e found = absurd (panic_done found)
    where
      panic_done : ◌≡◌ {A = Run Bin} panic (done b) → ⊥
      panic_done e' = cc e'
  metabin_there a p b (some m) e found = (m, e)

  module _ (h : ContainerAccess l) where
    -- The pointer to the superbin for 32 bytes, and that superbin.
    abbrev p0 : HyperionPointer
    p0 = set_superbin_id default_pointer (get_sblock_id (32 % 4294967296))

    abbrev pub serving : ArenaInner l → Superbin
    serving a = get_superbin_ref l a p0

    -- Looking the pointer up in the arena gives an address, and the head at that address has the
    -- size and what is left of it.
    abbrev pub IsInitialized : ArenaInner l × HyperionPointer → Type 0
    IsInitialized (a', p) =
        (read : ArenaInner l) × (address : ℕ) × (get_chunk l x a' p 0 ≡ done (read, address))
        × ((h.load_head address a'.world.mem).size ≡ 32)
        × ((h.load_head address a'.world.mem).free_bytes ≡ 28)

    -- The head is written to the chunk of the pointer.
    write_head-IsInitialized :
        (fuel : ℕ) (a : ArenaInner l) (p : HyperionPointer)
        → Found p0.superbin_id (a, p)
        → Returns IsInitialized (
            and_then
              (lift (get_chunk l x a p 0))
              (λ r. finished (write_head l x h c dyn fuel r.0 r.1, p)))
    unfolding Returns get_sblock_id
    write_head-IsInitialized fuel a p (same, v, (b, e)) =
        rw (get_chunk-plain l x p plain a m 0 there)
          (again.0, address, again.1, ap (λ k. k.size) stored, ap (λ k. k.free_bytes) stored)
      where
        plain : is_extended_pointer p ≡ false
        plain = rw same refl

        metabin : (m : Metabin) × (get (get_superbin_ref l a p).metabins p.metabin_id ≡ some m)
        metabin = metabin_there a p b (get (get_superbin_ref l a p).metabins p.metabin_id) refl e

        m : Metabin
        m = metabin.0

        there : get (get_superbin_ref l a p).metabins p.metabin_id ≡ some m
        there = metabin.1

        address : ℕ
        address = chunk_address l x p plain a m

        written : ArenaInner l
        written = write_head l x h c dyn fuel (read l x p plain a m) address

        again : (a' : ArenaInner l) × (get_chunk l x written p 0 ≡ done (a', address))
        again = get_chunk-again l x p plain a m 0 written.world (omega (arith, same, v.size)) there

        stored :
            h.load_head address written.world.mem
            ≡ initial_head l x h c dyn fuel (h.load_head address a.world.mem)
        stored =
            h.load_head-store_head address
              (initial_head l x h c dyn fuel (h.load_head address a.world.mem)) a.world.mem

    -- A new container, from an arena whose 64 superbins are valid, and whose superbin for 32 bytes
    -- has fewer than 16 metabins, takes at most 18 rounds. Unless it panics it returns an arena and
    -- a pointer that, looked up in that arena, gives an address, at which, in that arena's memory,
    -- stands a head that says 32 bytes, 28 of them free.
    pub initialize_container-Returns :
        (fuel : ℕ) (a : ArenaInner l)
        → 18 ≤ fuel
        → AreValid one_each a.superbins
        → (serving a).header.metabins_initialized < 16
        → Returns IsInitialized (initialize_container l x h c dyn fuel a)
    unfolding initialize_container
    initialize_container-Returns fuel a enough v few =
        Returns-and_then (Found p0.superbin_id) IsInitialized
          (get_new_pointer l x c dyn fuel 32 0 a)
          (λ new.
            and_then (lift (get_chunk l x new.0 new.1 0))
              (λ r. finished (write_head l x h c dyn fuel r.0 r.1, new.1)))
          (Returns-Found p0.superbin_id (get_new_pointer l x c dyn fuel 32 0 a) searched
            (get_new_pointer-Kept one_each l x dyn c fuel 32 0 a v))
          (λ new found. write_head-IsInitialized fuel new.0 new.1 found)
      where
        s : Search.Search l
        s = record { superbin = serving a; pointer = p0; world = a.world }

        valid : IsValid 1 (serving a)
        valid = v.each p0.superbin_id (get_sblock_id-lt 32 (omega arith))

        searched : Returns (InSuperbin p0.superbin_id) (get_new_pointer l x c dyn fuel 32 0 a)
        searched =
            unfold get_new_pointer in
            after_search-Returns 32 0 p0.superbin_id 1 a p0 (Search.allocate_bin l c fuel 0 s)
              (allocate_bin-Bounded l c 0 fuel s enough valid few)
              (allocate_bin-FindsValid 1 l c 0 fuel s valid)
