-- ===== src/Api/Kept.antt =====
-- What only touches the memory keeps an arena's superbins valid.
use hyperion_rust.Common.{
  ℕ, zero, suc, ◌+◌, ◌*◌, ◌/◌, ltb, if◌then◌else◌, Bool, Option, none, some, if_both,
}
use hyperion_rust.Allocator.{Libc, done, ◌>>=◌}
use hyperion_rust.Allocator.Each.{Each, Each->>=}
use hyperion_rust.Pointer.{HyperionPointer}
use hyperion_rust.Core.{has_data}
use hyperion_rust.Core.Chunks.{
  ArenaInner, Access, get_bin_ref, extended_address, chained_address, decompressed, read_extended,
}
use hyperion_rust.Core.Valid.{AreValid}
use hyperion_rust.Core.Allocate.{Outcome, no_fuel, lift}
use hyperion_rust.Core.Reallocate.Valid.{Holds, Holds-and_then, Holds-lift, anything}
use hyperion_rust.Api.{
  SegmentChain, register_chained_memory, get_chained_pointer, get_all_chained_pointer, collect,
  register_at, free_data, find_data, new_entry,
}

module _ (floor : ℕ → ℕ) (l : Libc) (x : Access l) where
  register_at-AreValid :
      (a : ArenaInner l) (address segment size over : ℕ)
      → AreValid floor a.superbins
      → Each (λ a'. AreValid floor a'.superbins) (register_at l x a address segment size over)
  register_at-AreValid a address segment size over v =
      Each->>= (λ a'. AreValid floor a'.superbins)
        (free_data l x (x.load address a.world.mem) a.world) _ (λ w e. v)

  pub register_chained_memory-AreValid :
      (fuel : ℕ) (a : ArenaInner l) (p : HyperionPointer) (character segment size : ℕ)
      (inplace : Bool) (over : ℕ)
      → AreValid floor a.superbins
      → Holds
          (λ a'. AreValid floor a'.superbins)
          (register_chained_memory l x fuel a p character segment size inplace over)
  unfolding register_chained_memory
  register_chained_memory-AreValid fuel a p character segment size inplace over v =
      Holds-and_then (λ b. Unit) (λ a'. AreValid floor a'.superbins) (lift (get_bin_ref l a p)) _
        (anything (lift (get_bin_ref l a p)))
        (λ b _. at_found (
          if inplace
          then some (extended_address b p + character / 32 * 16)
          else find_data l x fuel (extended_address b p + character / 32 * 16) a.world))
    where
      at_found :
          (o : Option ℕ)
          → Holds
              (λ a'. AreValid floor a'.superbins)
              (elim o as (λ _. Outcome (ArenaInner l)) [
                | none ↦ no_fuel
                | some address ↦ lift (register_at l x a address segment size over)
              ])
      at_found none = tt
      at_found (some address) =
          Holds-lift (λ a'. AreValid floor a'.superbins)
            (register_at l x a address segment size over)
            (register_at-AreValid a address segment size over v)

  pub get_chained_pointer-AreValid :
      (dyn : ℕ) (a : ArenaInner l) (p : HyperionPointer) (character : ℕ) (init : Bool) (size : ℕ)
      → AreValid floor a.superbins
      → Each
          (λ r. AreValid floor r.0.superbins)
          (get_chained_pointer l x dyn a p character init size)
  unfolding get_chained_pointer
  get_chained_pointer-AreValid dyn a p character init size v =
      Each->>= (λ r. AreValid floor r.0.superbins) (get_bin_ref l a p) _
        (λ b e.
          let head = extended_address b p in
          let entry = head + character / 32 * 16 in
          read_at
            (if has_data (x.load entry a.world.mem)
              then (a, entry)
              else if init
              then (new_entry l x dyn a entry (character / 32) size, entry)
              else (a, chained_address l x head character a.world))
            (if_both {A = ArenaInner l × ℕ} (λ r. AreValid floor r.0.superbins)
              (has_data (x.load entry a.world.mem)) v
              (if_both {A = ArenaInner l × ℕ} (λ r. AreValid floor r.0.superbins) init v v)))
    where
      read_at :
          (found : ArenaInner l × ℕ)
          → AreValid floor found.0.superbins
          → Each {A = ArenaInner l × ℕ}
              (λ r. AreValid floor r.0.superbins)
              (decompressed l x (x.load found.1 found.0.world.mem) >>= λ e.
                done (read_extended l x found.0 found.1))
      read_at found h =
          Each->>= (λ r. AreValid floor r.0.superbins)
            (decompressed l x (x.load found.1 found.0.world.mem)) _ (λ e e'. h)

  collect-AreValid :
      (n i head elements : ℕ) (chain : SegmentChain) (a : ArenaInner l)
      → AreValid floor a.superbins
      → Each (λ r. AreValid floor r.0.superbins) (collect l x n i head elements chain a)
  unfolding collect
  collect-AreValid zero i head elements chain a v = v
  collect-AreValid (suc n) i head elements chain a v =
      if_both (Each (λ r. AreValid floor r.0.superbins)) (has_data (x.load head a.world.mem))
        (Each->>= (λ r. AreValid floor r.0.superbins) (decompressed l x (x.load head a.world.mem)) _
          (λ e e'.
            collect-AreValid n (i + 32) head (elements + 1) _ (read_extended l x a head).0 v))
        (collect-AreValid n (i + 32) head elements chain a v)

  pub get_all_chained_pointer-AreValid :
      (chain : SegmentChain) (a : ArenaInner l) (p : HyperionPointer)
      → AreValid floor a.superbins
      → Each (λ r. AreValid floor r.0.superbins) (get_all_chained_pointer l x chain a p)
  unfolding get_all_chained_pointer
  get_all_chained_pointer-AreValid chain a p v =
      Each->>= (λ r. AreValid floor r.0.superbins) (get_bin_ref l a p) _
        (λ b e.
          if_both (Each (λ r. AreValid floor r.0.superbins))
            (ltb 0 (x.load (extended_address b p) a.world.mem).chained_pointer_count)
            (collect-AreValid 8 0 (extended_address b p) 0 chain a v) v)
