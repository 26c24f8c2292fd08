-- ===== src/Core/Reallocate.antt =====
-- core.rs over an arena: `reallocate_from_pointer` and what it calls, and `create_new_chunks` of the
-- feature `migration`.
pub mod Valid
use hyperion_rust.Common.{
  ℕ, zero, suc, ◌+◌, ◌-◌, ◌*◌, ◌%◌, ◌==◌, ltb, leb, if◌then◌else◌, ◌&&◌, ◌||◌, Bool, true, false,
  not, Option, none, some, get_or, min,
}
use hyperion_rust.Simd.Lanes.{Features}
use hyperion_rust.Allocator.{Libc, World, Run, done, panic, ◌>>=◌}
use hyperion_rust.Pointer.{HyperionPointer, is_extended_pointer}
use hyperion_rust.Bin.{Bin}
use hyperion_rust.Superbin.{Superbin, get_sblock_id, get_datablock_size}
use hyperion_rust.Core.{ExtendedHyperionPointer, as_i32, i32_as_usize, min_i32}
use hyperion_rust.Core
use hyperion_rust.Core.Chunks.{
  Access, ArenaInner, get_superbin_ref, get_bin_ref, extended_address, chained_address,
  decompressed, get_chunk_pointer, get_chunk,
}
use hyperion_rust.Core.Allocate.{
  Outcome, finished, panicked, no_fuel, and_then, lift, get_new_pointer,
}
use hyperion_rust.Core.Free.{free_from_pointer}

-- How many bytes of a chunk `reallocate_hyperion_pointer` copies: the new size is cast to a u16.
unfoldable pub copy_size : Superbin → ℕ → ℕ
copy_size s size = min (get_datablock_size s) (size % 65536)

module _ (l : Libc) (x : Access l) (c : Features) (dyn fuel : ℕ) where
  abbrev pub copy : ArenaInner l → ℕ → ℕ → ℕ → ArenaInner l
  copy a dest src n = record a {
    world = record (a.world) { mem = l.memcpy dest src n a.world.mem };
  }

  -- The arena and the pointer to use from now on.
  unfoldable pub reallocate_hyperion_pointer :
      ArenaInner l → HyperionPointer → ℕ → Outcome (ArenaInner l × HyperionPointer)
  reallocate_hyperion_pointer a p size =
      if get_sblock_id (size % 4294967296) == p.superbin_id
      then finished (a, p)
      else and_then (get_new_pointer l x c dyn fuel size 0 a) (λ new.
        and_then (lift (get_chunk l x new.0 p 0)) (λ old.
          and_then (lift (get_chunk l x old.0 new.1 0)) (λ fresh.
            and_then
              (lift (
                free_from_pointer l x c
                  (copy fresh.0 fresh.1 old.1 (copy_size (get_superbin_ref l fresh.0 p) size)) p))
              (λ a'. finished (a', new.1)))))

  -- `reallocate_shrink`: an extended pointer's data move into a chunk.
  unfoldable pub reallocate_shrink :
      ArenaInner l → HyperionPointer → ℕ → Outcome (ArenaInner l × HyperionPointer)
  reallocate_shrink a p size = and_then (get_new_pointer l x c dyn fuel size 0 a) (λ new.
      and_then (lift (get_chunk l x new.0 new.1 0)) (λ fresh.
        and_then (lift (get_bin_ref l fresh.0 p)) (λ b.
          let e = x.load (extended_address b p) fresh.0.world.mem in
          and_then
            (lift (
              free_from_pointer l x c
                (copy fresh.0 fresh.1 e.data_pointer
                  (i32_as_usize (min_i32 e.requested_size (as_i32 size))))
                p))
            (λ a'. finished (a', new.1)))))

  -- The extended pointer at an address, reallocated and stored.
  abbrev pub reallocate_at : ArenaInner l → ℕ → ℕ → Run (ArenaInner l)
  reallocate_at a address size =
      Core.reallocate_extended l dyn (x.load address a.world.mem) size a.world >>= λ r.
      done (record a { world = record (r.1) { mem = x.store address r.0 r.1.mem } })

  -- `reallocate_extended`: the entry of the chain, if there is one, or the pointer's own.
  unfoldable pub reallocate_extended :
      ArenaInner l → HyperionPointer → ℕ → ℕ → ℕ → Run (ArenaInner l)
  reallocate_extended a p size needed_character chained_pointer_cnt = get_bin_ref l a p >>= λ b.
      let head = extended_address b p in
      let chained = chained_address l x head needed_character a.world in
      if ltb 0 chained_pointer_cnt
      then (decompressed l x (x.load chained a.world.mem) >>= λ e. reallocate_at a chained size)
      else reallocate_at a head size

  unfoldable pub reallocate_extended_pointer :
      ArenaInner l → HyperionPointer → ℕ → ℕ → Outcome (ArenaInner l × HyperionPointer)
  reallocate_extended_pointer a p size needed_character = and_then (lift (get_bin_ref l a p)) (λ b.
      let count = (x.load (extended_address b p) a.world.mem).chained_pointer_count in
      if ltb 0 count || (get_sblock_id (size % 4294967296) == 0)
      then and_then (lift (reallocate_extended a p size needed_character count))
          (λ a'. finished (a', p))
      else reallocate_shrink a p size)

  unfoldable pub reallocate_from_pointer :
      ArenaInner l → HyperionPointer → ℕ → ℕ → Outcome (ArenaInner l × HyperionPointer)
  reallocate_from_pointer a p size needed_character =
      if is_extended_pointer p
      then reallocate_extended_pointer a p size needed_character
      else reallocate_hyperion_pointer a p size

  -- `create_new_chunks`: the arena, the pointer, and the address of the new chunk, 0 if the chunk
  -- stays where it is.
  unfoldable pub create_new_chunks :
      ArenaInner l → HyperionPointer → ℕ → Outcome (ArenaInner l × HyperionPointer × ℕ)
  create_new_chunks a p might_increment =
      let s = get_superbin_ref l a p in
      let size = get_datablock_size s in
      if not (might_increment == 0)
      then finished (a, p, 0)
      else if leb (s.header.metabins_initialized - 1) p.metabin_id
          && ltb (get_or s.metabin_ring 0 0) p.metabin_id
      then and_then (get_new_pointer l x c dyn fuel size 0 a) (λ new.
        and_then (lift (get_chunk_pointer l new.0 new.1)) (λ new_data.
          and_then (lift (get_chunk_pointer l new.0 p)) (λ old_data.
            and_then (lift (free_from_pointer l x c (copy new.0 new_data old_data size) p))
              (λ a'. finished (a', new.1, new_data)))))
      else finished (a, p, 0)
