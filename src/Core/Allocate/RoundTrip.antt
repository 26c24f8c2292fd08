-- ===== src/Core/Allocate/RoundTrip.antt =====
-- A large allocation and the look-up of its data.
use hyperion_rust.Common.{
  ℕ, ◌+◌, ◌*◌, ◌%◌, ◌≡◌, ◌<◌, ◌≤◌, refl, ap, ◌∙◌, true, false, some, arith, Bool-cases, inl, inr,
  ◌⊎◌, suc,
}
use hyperion_rust.Simd.Lanes.{Features}
use hyperion_rust.Allocator.{Libc, World, Run, done, panic, allocate_heap}
use hyperion_rust.Pointer.{HyperionPointer, default_pointer, set_superbin_id, is_extended_pointer}
use hyperion_rust.Bin.{Bin}
use hyperion_rust.Metabin.{Metabin, bin_of}
use hyperion_rust.Metabin.Allocate.{IsMask}
use hyperion_rust.Superbin.{Superbin, get_sblock_id, get_metabin_candidate}
use hyperion_rust.Core.Search.Ends.{Ends, HasRoom, allocate_bin-Ends}
use hyperion_rust.Core.{ExtendedHyperionPointer, as_i32, roundup, alloc_size}
use hyperion_rust.Core.Extended.{alloc_size-small}
use hyperion_rust.Core.Buffer.{small_size}
use hyperion_rust.Core.Roundup.{roundup_lem}
use hyperion_rust.Core.Search
use hyperion_rust.Core.Search.{SearchResult}
use hyperion_rust.Core.Chunks.{
  Access, ArenaInner, read_extended, get_bin_ref, get_superbin_ref, get_metabin_ref, put_superbin,
  extended_address, get_chunk, get_chunk_pointer_from_extended,
}
use hyperion_rust.Core.Allocate.{
  Outcome, finished, panicked, no_fuel, new_extended, fill_pointer, after_search, get_new_pointer,
  lift, and_then,
}

-- The increment is 256 to 4096 in steps of 256, and the size is below 2^31 - 8192.
module _ (l : Libc) (x : Access l) (dyn size steps : ℕ) (same : dyn ≡ steps * 256)
    (some_steps : 1 ≤ steps) (few_steps : steps ≤ 16) (small : size < small_size) where
  -- What a new extended pointer is: its entry has the size, room for the rounded size and no chain,
  -- its data are the address that the heap gave for the rounded size, every look-up finds them, and
  -- nothing but the entry was written since the heap gave it.
  abbrev pub IsNew : ArenaInner l → HyperionPointer → Type 0
  IsNew a p =
      (b : Bin) × (w : World l) × (get_bin_ref l a p ≡ done b)
      × ((x.load (extended_address b p) a.world.mem).requested_size ≡ size)
      × (alloc_size (x.load (extended_address b p) a.world.mem) ≡ roundup dyn size)
      × ((x.load (extended_address b p) a.world.mem).data_pointer
          ≡ (allocate_heap l (roundup dyn size) w).0)
      × ((x.load (extended_address b p) a.world.mem).chained_pointer_count ≡ 0)
      × (a.world ≡ record ((allocate_heap l (roundup dyn size) w).1) {
        mem =
            x.store (extended_address b p) (x.load (extended_address b p) a.world.mem)
              (allocate_heap l (roundup dyn size) w).1.mem;
      })
      × ((c : ℕ)
          → get_chunk l x a p c
            ≡ done (
              (read_extended l x a (extended_address b p)).0,
              (allocate_heap l (roundup dyn size) w).0,
            ))

  fill_pointer-IsNew :
      (a : ArenaInner l) (p : HyperionPointer) (m : Metabin)
      → is_extended_pointer p ≡ true
      → get_metabin_ref l a p ≡ done m
      → IsNew (fill_pointer l x dyn size a p m) p
  unfolding fill_pointer get_chunk get_chunk_pointer_from_extended
  fill_pointer-IsNew a p m ext e =
      rw (ext, e)
        (
          bin_of m p.bin_id,
          a.world,
          refl,
          ap (λ e. e.requested_size) stored ∙ stored_size,
          ap (λ e. alloc_size e) stored ∙ whole (x.load address r.1.mem),
          ap (λ e. e.data_pointer) stored,
          ap (λ e. e.chained_pointer_count) stored,
          rw stored refl,
          λ c. rw stored refl,
        )
    where
      bounds : (size < roundup dyn size) × (roundup dyn size ≤ size + 4096)
      bounds = rw same (
        (roundup_lem steps size some_steps few_steps).0,
        (roundup_lem steps size some_steps few_steps).1,
      )

      r : ℕ × World l
      r = allocate_heap l (roundup dyn size) a.world

      stored_size : as_i32 size ≡ size
      stored_size = omega arith

      whole :
          (e : ExtendedHyperionPointer)
          → alloc_size (new_extended l x dyn size r.0 e) ≡ roundup dyn size
      whole e =
          alloc_size-small (new_extended l x dyn size r.0 e) (omega (arith, stored_size))
            (omega (arith, bounds))
          ∙ omega (arith, bounds, stored_size)

      address : ℕ
      address = extended_address (bin_of m p.bin_id) p

      stored :
          x.load address
            (x.store address (new_extended l x dyn size r.0 (x.load address r.1.mem)) r.1.mem)
          ≡ new_extended l x dyn size r.0 (x.load address r.1.mem)
      stored = x.load-store address (new_extended l x dyn size r.0 (x.load address r.1.mem)) r.1.mem

  -- A result: a pointer that is not extended, a new extended one, or a panic.
  abbrev pub Allocated : Outcome (ArenaInner l × HyperionPointer) → Type 0
  Allocated (finished (a, p)) = (is_extended_pointer p ≡ false) ⊎ IsNew a p
  Allocated panicked = Unit
  Allocated no_fuel = ⊥

  pub after_search-Allocated :
      (c : Features) (chain_count : ℕ) (a : ArenaInner l) (p0 : HyperionPointer)
      (r : SearchResult l)
      → Ends l c chain_count r
      → Allocated (after_search l x dyn size a p0 r)
  after_search-Allocated c chain_count a p0 Search.panicked h = tt
  after_search-Allocated c chain_count a p0 Search.no_fuel h = h
  after_search-Allocated c chain_count a p0 (Search.found s) h =
      go (get_metabin_ref l a' s.pointer) refl
    where
      a' : ArenaInner l
      a' = record (put_superbin l a p0 s.superbin) { world = s.world }

      go :
          (g : Run Metabin)
          → get_metabin_ref l a' s.pointer ≡ g
          → Allocated (
              and_then
                (lift g)
                (λ m. finished (fill_pointer l x dyn size a' s.pointer m, s.pointer)))
      go panic e = tt
      go (done m) e = elim (Bool-cases (is_extended_pointer s.pointer)) [
        | inl ext ↦ inr (fill_pointer-IsNew a' s.pointer m ext e)
        | inr plain ↦ inl plain
      ]

  -- The superbin that serves the size.
  abbrev pub chosen : ArenaInner l → Superbin
  chosen a =
      get_superbin_ref l a (set_superbin_id default_pointer (get_sblock_id (size % 4294967296)))

  -- With an increment of 256 to 4096 in steps of 256, an allocation of a small size from a superbin that has room for
  -- another metabin, the newest of which comes first in the ring and has a mask of 8 words, ends
  -- within two rounds. Unless it panics it returns a pointer; if that is extended, its entry has the
  -- size that was asked for, the room of the rounded size and no chain, its data are the address that
  -- the heap gave for the rounded size, and looking the pointer up, for any character, returns that
  -- address.
  get_chunk-get_new_pointer :
      (c : Features) (fuel chained_counter : ℕ) (a : ArenaInner l) (m : Metabin)
      → HasRoom (chosen a)
      → get_metabin_candidate (chosen a) ≡ some m
      → IsMask m.bin_usage_mask
      → Allocated (get_new_pointer l x c dyn (suc (suc fuel)) size chained_counter a)
  unfolding get_new_pointer
  get_chunk-get_new_pointer c fuel chained_counter a m room e mask =
      after_search-Allocated c chained_counter a p0
        (Search.allocate_bin l c (suc (suc fuel)) chained_counter s)
        (allocate_bin-Ends l c chained_counter fuel s m room e mask)
    where
      p0 : HyperionPointer
      p0 = set_superbin_id default_pointer (get_sblock_id (size % 4294967296))

      s : Search.Search l
      s = record { superbin = chosen a; pointer = p0; world = a.world }
