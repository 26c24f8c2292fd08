-- ===== src/Core/Free.antt =====
-- core.rs over an arena: `free_from_pointer` and what it calls.
pub mod Leak
pub mod Valid
use hyperion_rust.Common.{
  ℕ, zero, suc, ◌+◌, ◌*◌, ◌%◌, ◌==◌, if◌then◌else◌, ◌&&◌, Bool, true, false, not, Option, none,
  some, get_or,
}
use hyperion_rust.Simd.Lanes.{Features}
use hyperion_rust.Allocator.{Libc, World, Run, done, panic, ◌>>=◌}
use hyperion_rust.Pointer.{HyperionPointer, is_extended_pointer, is_deflate}
use hyperion_rust.Bin.{Bin, toggle_chunk_usage}
use hyperion_rust.Metabin.{Metabin, bin_of, put_bin, set_bin_as_unused}
use hyperion_rust.Superbin.{
  Superbin, inject_metabin_into_metaring, delete_unused_metabins, has_cached_bin,
}
use hyperion_rust.Core.{free_extended}
use hyperion_rust.Core.Chunks.{
  Access, ArenaInner, get_superbin_ref, put_superbin, get_metabin_ref, get_bin_ref, put_metabin,
  put_bin_ref, extended_address, get_chunk_pointer,
}
use hyperion_rust.Teardown.{teardown_bin, bin_elements_deflated}

module _ (l : Libc) (x : Access l) where
  -- The bin's chunk is toggled, and the extended pointer's memory released.
  unfoldable pub release_extended : ArenaInner l → HyperionPointer → Metabin → Run (ArenaInner l)
  release_extended a p m =
      let b = bin_of m p.bin_id in
      let address = extended_address b p in
      free_extended l (x.load address a.world.mem) a.world >>= λ r.
      done (record (put_bin_ref l a p m (toggle_chunk_usage b p.chunk_id).0) {
        world = record (r.1) { mem = x.store address r.0 r.1.mem };
      })

  -- The chunk is filled with zeros.
  unfoldable pub release_chunk : ArenaInner l → HyperionPointer → Run (ArenaInner l)
  release_chunk a p = get_chunk_pointer l a p >>= λ address. done (record a {
    world = record (a.world) {
      mem = l.memzero address (get_superbin_ref l a p).header.size_of_bin a.world.mem;
    };
  })

  -- Either way the bin counts as one with a free chunk.
  unfoldable pub mark_unused : ArenaInner l → HyperionPointer → Run (ArenaInner l)
  mark_unused a p = get_metabin_ref l a p >>= λ m.
      done (put_metabin l a p (set_bin_as_unused m p.bin_id p.chunk_id))

  unfoldable pub free_chunks_normal : ArenaInner l → HyperionPointer → Run (ArenaInner l)
  free_chunks_normal a p =
      (if is_extended_pointer p
        then (get_metabin_ref l a p >>= λ m. release_extended a p m)
        else release_chunk a p)
      >>= λ a'. mark_unused a' p

  -- The loop over the ids of a deflated bin, which are read from an address on: the index of one.
  pub find_id : ℕ → ℕ → ℕ → ℕ → World l → Option ℕ
  find_id zero i address id w = none
  find_id (suc n) i address id w =
      let rest = find_id n (i + 1) (address + 2) id w in
      if x.load_u16 address w.mem == id then some i else rest

  -- `free_chunks_deflated` takes the first word of the mask for the address of the ids.
  unfoldable pub free_chunks_deflated : ArenaInner l → HyperionPointer → Run (ArenaInner l)
  unfolding find_id
  free_chunks_deflated a p = get_metabin_ref l a p >>= λ m.
      let size = (get_superbin_ref l a p).header.size_of_bin in
      let b = bin_of m p.bin_id in
      let ids = get_or b.chunk_usage_mask 0 0 in
      elim (find_id bin_elements_deflated 0 ids p.chunk_id a.world) [
        | none ↦ done a
        | some i ↦
            done
              (record (put_metabin l a p (record m { free_chunks = (m.free_chunks + 1) % 256 })) {
                world = record (a.world) {
                  mem =
                      x.store_u16 (ids + 2 * i) 255
                        (l.memzero (b.chunks + size * i) size a.world.mem);
                };
              })
      ]

  -- `update_superbin`, from the metabin on: an arena in which the ring, the bin and the cache are
  -- up to date.
  unfoldable pub update_superbin : Features → ArenaInner l → HyperionPointer → Run (ArenaInner l)
  update_superbin c a p = get_metabin_ref l a p >>= λ m.
      let s = get_superbin_ref l a p in
      let s1 = if m.free_chunks == 0 then inject_metabin_into_metaring c s m else s in
      let a1 = put_superbin l a p s1 in
      if (m.id == 0) && (p.bin_id == 0)
      then done a1
      else (teardown_bin l x c s1 (bin_of m p.bin_id) a.world >>= λ r.
          let torn = put_bin_ref l (put_superbin l a p r.1) p m r.2 in
          let s2 = get_superbin_ref l torn p in
          done (record (put_superbin l torn p (if r.0 then delete_unused_metabins c s2 else s2)) {
            world = r.3;
          }))

  unfoldable pub free_from_pointer : Features → ArenaInner l → HyperionPointer → Run (ArenaInner l)
  free_from_pointer c a p =
      (get_bin_ref l a p >>= λ b.
      if not (is_deflate b.header.compression_state)
      then free_chunks_normal a p
      else free_chunks_deflated a p)
      >>= λ a'. update_superbin c a' p
