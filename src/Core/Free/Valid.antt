-- ===== src/Core/Free/Valid.antt =====
-- Freeing keeps an arena valid.
use hyperion_rust.Common.{
  ℕ, get_or-set_self, ◌+◌, ◌*◌, ◌%◌, ◌<◌, ◌≡◌, refl, ◌∙◌, ◌==◌, if◌then◌else◌, ◌&&◌, Bool, not,
  Option, none, some, get_or, if_both, arith,
}
use hyperion_rust.Simd.Lanes.{Features}
use hyperion_rust.Simd.AllBits.Laws.{HasVectors}
use hyperion_rust.Allocator.{Libc, World, Run, done, panic, ◌>>=◌, allocated_by_into_bits}
use hyperion_rust.Allocator.Each.{Each, Each->>=, Each-done}
use hyperion_rust.Pointer.{HyperionPointer, is_extended_pointer, is_deflate}
use hyperion_rust.Bin.{Bin, toggle_chunk_usage, is_fully_occupied}
use hyperion_rust.Metabin.{Metabin, bin_of, put_bin, set_bin_as_unused}
use hyperion_rust.Metabin.Masked.{set_bin_as_unused-IsMask}
use hyperion_rust.Superbin.{
  Superbin, new_superbin, inject_metabin_into_metaring, delete_unused_metabins, has_cached_bin,
  get_datablock_size,
}
use hyperion_rust.Superbin.Valid.{IsValid, delete_unused_metabins-eq}
use hyperion_rust.Superbin.Kept.{
  inject_metabin_into_metaring-IsValid, inject_metabin_into_metaring_metabins,
}
use hyperion_rust.Core.{free_extended}
use hyperion_rust.Core.Chunks.{
  Access, ArenaInner, get_superbin_ref, put_superbin, get_metabin_ref, get_bin_ref, put_metabin,
  put_bin_ref, extended_address, get_chunk_pointer,
}
use hyperion_rust.Core.Valid.{AreValid, set-AreValid, put_metabin-AreValid}
use hyperion_rust.Core.Free.{
  release_extended, release_chunk, mark_unused, free_chunks_normal, find_id, free_chunks_deflated,
  update_superbin, free_from_pointer,
}
use hyperion_rust.Teardown.{teardown_bin, teardown}

module _ (floor : ℕ → ℕ) (l : Libc) (x : Access l) (p : HyperionPointer)
    (few : p.superbin_id < 64) where
  -- The superbins of a result, if there is one, are valid.
  abbrev pub EachValid : Run (ArenaInner l) → Type 0
  EachValid r = Each (λ a. AreValid floor a.superbins) r

  free_chunks_normal-EachValid :
      (a : ArenaInner l) → AreValid floor a.superbins → EachValid (free_chunks_normal l x a p)
  unfolding free_chunks_normal release_extended release_chunk mark_unused set_bin_as_unused
  free_chunks_normal-EachValid a v =
      after
        (if is_extended_pointer p
          then (get_metabin_ref l a p >>= λ m. release_extended l x a p m)
          else release_chunk l x a p)
        (if_both EachValid (is_extended_pointer p)
          (Each->>= (λ a'. AreValid floor a'.superbins) (get_metabin_ref l a p)
            (λ m. release_extended l x a p m)
            (λ m e.
              Each->>= (λ a'. AreValid floor a'.superbins)
                (free_extended l (x.load (extended_address (bin_of m p.bin_id) p) a.world.mem)
                  a.world)
                _
                (λ r e'.
                  put_metabin-AreValid l a p v few m
                    (put_bin m p.bin_id (toggle_chunk_usage (bin_of m p.bin_id) p.chunk_id).0) e
                    refl (λ h. h))))
          (Each->>= (λ a'. AreValid floor a'.superbins) (get_chunk_pointer l a p) _
            (λ address e. v)))
    where
      after : (r : Run (ArenaInner l)) → EachValid r → EachValid (r >>= λ a'. mark_unused l x a' p)
      after panic h = tt
      after (done a') h =
          Each->>= (λ a''. AreValid floor a''.superbins) (get_metabin_ref l a' p) _
            (λ m e.
              put_metabin-AreValid l a' p h few m (set_bin_as_unused m p.bin_id p.chunk_id) e refl
                (set_bin_as_unused-IsMask m p.bin_id p.chunk_id))

  free_chunks_deflated-EachValid :
      (a : ArenaInner l) → AreValid floor a.superbins → EachValid (free_chunks_deflated l x a p)
  unfolding free_chunks_deflated
  free_chunks_deflated-EachValid a v =
      Each->>= (λ a'. AreValid floor a'.superbins) (get_metabin_ref l a p) _
        (λ m e.
          found m e (
            find_id l x 256 0 (get_or (bin_of m p.bin_id).chunk_usage_mask 0 0) p.chunk_id a.world))
    where
      found :
          (m : Metabin)
          → get_metabin_ref l a p ≡ done m
          → (o : Option ℕ)
          → EachValid (elim o [
            | none ↦ done a
            | some i ↦
                let size = (get_superbin_ref l a p).header.size_of_bin in
                let b = bin_of m p.bin_id in
                done
                  (record (put_metabin l a p
                    (record m { free_chunks = (m.free_chunks + 1) % 256 })) {
                      world = record (a.world) {
                        mem =
                            x.store_u16
                              (get_or b.chunk_usage_mask 0 0 + 2 * i)
                              255
                              (l.memzero (b.chunks + size * i) size a.world.mem);
                      };
                    })
          ])
      found m e none = v
      found m e (some i) =
          put_metabin-AreValid l a p v few m (record m { free_chunks = (m.free_chunks + 1) % 256 })
            e refl (λ h. h)

  -- The superbin that a torn down bin leaves: valid, with the same metabins.
  abbrev IsTorn : Superbin → Bool × Superbin × Bin × World l → Type 0
  IsTorn s r = IsValid (floor p.superbin_id) r.1 × (r.1.metabins ≡ s.metabins)

  with_cache :
      (s : Superbin) (cache : ℕ)
      → IsValid (floor p.superbin_id) s
      → IsValid (floor p.superbin_id) (record s { bin_cache = cache })
  with_cache s cache v = record {
    room = v.room;
    one_metabin = v.one_metabin;
    above = v.above;
    few = v.few;
    present = v.present;
    absent = v.absent;
    ring_size = v.ring_size;
  }

  teardown_bin-IsTorn :
      (c : Features) (s : Superbin) (b : Bin) (w : World l)
      → IsValid (floor p.superbin_id) s
      → Each (IsTorn s) (teardown_bin l x c s b w)
  unfolding teardown_bin
  teardown_bin-IsTorn c s b w v =
      if_both (Each (IsTorn s)) (is_fully_occupied c b) (v, refl)
        (if_both (Each (IsTorn s))
          (not (has_cached_bin s) && (allocated_by_into_bits b.header.allocated_by == 0))
          (with_cache s b.chunks v, refl)
          (Each->>= (IsTorn s) (teardown l x b (get_datablock_size s) w) _ (λ w' e. (v, refl))))

  -- A superbin that takes the place of one with the same metabins, and then a metabin's bin.
  torn_down :
      (a : ArenaInner l) (m : Metabin) (b : Bin) (s : Superbin)
      → AreValid floor a.superbins
      → get_metabin_ref l a p ≡ done m
      → IsValid (floor p.superbin_id) s
      → s.metabins ≡ (get_superbin_ref l a p).metabins
      → AreValid floor (put_bin_ref l (put_superbin l a p s) p m b).superbins
  torn_down a m b s v e valid same =
      put_metabin-AreValid l (put_superbin l a p s) p
        (set-AreValid a.superbins p.superbin_id s v valid) few m (put_bin m p.bin_id b)
        (rw (get_or-set_self a.superbins p.superbin_id s new_superbin (omega (arith, v.size)), same)
          e)
        refl (λ h. h)

  update_superbin-EachValid :
      (c : Features) (a : ArenaInner l)
      → HasVectors c
      → AreValid floor a.superbins
      → EachValid (update_superbin l x c a p)
  unfolding update_superbin
  update_superbin-EachValid c a vec v =
      Each->>= (λ a'. AreValid floor a'.superbins) (get_metabin_ref l a p) _
        (λ m e.
          if_both EachValid ((m.id == 0) && (p.bin_id == 0))
            (set-AreValid a.superbins p.superbin_id (s1 m) v (s1-IsValid m))
            (Each->>= (λ a'. AreValid floor a'.superbins)
              (teardown_bin l x c (s1 m) (bin_of m p.bin_id) a.world) _
              (λ r e'. finished m e r (
                Each-done (IsTorn (s1 m)) (teardown_bin l x c (s1 m) (bin_of m p.bin_id) a.world) r
                  (teardown_bin-IsTorn c (s1 m) (bin_of m p.bin_id) a.world (s1-IsValid m)) e'))))
    where
      s1 : Metabin → Superbin
      s1 m =
          let s = get_superbin_ref l a p in
          if m.free_chunks == 0 then inject_metabin_into_metaring c s m else s

      s1-IsValid : (m : Metabin) → IsValid (floor p.superbin_id) (s1 m)
      s1-IsValid m =
          if_both (IsValid (floor p.superbin_id)) (m.free_chunks == 0)
            (inject_metabin_into_metaring-IsValid c (get_superbin_ref l a p) m vec
              (v.each p.superbin_id few))
            (v.each p.superbin_id few)

      same_metabins : (m : Metabin) → (s1 m).metabins ≡ (get_superbin_ref l a p).metabins
      same_metabins m =
          if_both {A = Superbin} (λ s. s.metabins ≡ (get_superbin_ref l a p).metabins)
            (m.free_chunks == 0)
            (inject_metabin_into_metaring_metabins c (get_superbin_ref l a p) m) refl

      finished :
          (m : Metabin)
          → get_metabin_ref l a p ≡ done m
          → (r : Bool × Superbin × Bin × World l) → IsTorn (s1 m) r
          → let torn = put_bin_ref l (put_superbin l a p r.1) p m r.2 in
            let s2 = get_superbin_ref l torn p in
            AreValid floor
              (put_superbin l torn p (if r.0 then delete_unused_metabins c s2 else s2)).superbins
      finished m e r h =
          let torn = put_bin_ref l (put_superbin l a p r.1) p m r.2 in
          let s2 = get_superbin_ref l torn p in
          let v' : AreValid floor torn.superbins =
            torn_down a m r.2 r.1 v e h.0 (h.1 ∙ same_metabins m) in
          set-AreValid torn.superbins p.superbin_id
            (if r.0 then delete_unused_metabins c s2 else s2) v'
            (if_both (IsValid (floor p.superbin_id)) r.0
              (rw (delete_unused_metabins-eq c s2 (v'.each p.superbin_id few))
                (v'.each p.superbin_id few))
              (v'.each p.superbin_id few))

  -- Freeing what a pointer with one of the 64 superbins refers to, with AVX2 or SSE4.1, from an
  -- arena whose superbins are valid and have at least the numbers of metabins that `floor` gives: if
  -- it does not panic, all of them are valid again and have as many at least. It may have put the
  -- metabin back into the ring and torn the bin down.
  pub free_from_pointer-EachValid :
      (c : Features) (a : ArenaInner l)
      → HasVectors c
      → AreValid floor a.superbins
      → EachValid (free_from_pointer l x c a p)
  unfolding free_from_pointer
  free_from_pointer-EachValid c a vec v = after (get_bin_ref l a p >>= freed) (
      Each->>= (λ a'. AreValid floor a'.superbins) (get_bin_ref l a p) freed
        (λ b e.
          if_both EachValid (not (is_deflate b.header.compression_state))
            (free_chunks_normal-EachValid a v) (free_chunks_deflated-EachValid a v)))
    where
      freed : Bin → Run (ArenaInner l)
      freed b =
          if not (is_deflate b.header.compression_state)
          then free_chunks_normal l x a p
          else free_chunks_deflated l x a p

      after :
          (r : Run (ArenaInner l))
          → EachValid r
          → EachValid (r >>= λ a'. update_superbin l x c a' p)
      after panic h = tt
      after (done a') h = update_superbin-EachValid c a' vec h
