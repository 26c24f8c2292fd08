-- ===== src/Metabin/Named.antt =====
-- The search of a metabin keeps the metabin's id and the superbin that the pointer names.
use hyperion_rust.Common.{
  ℕ, zero, suc, ◌≡◌, ◌∙◌, true, false, Option, none, some, if_both, ◌==◌, not, if◌then◌else◌,
}
use hyperion_rust.Simd.Lanes.{Features}
use hyperion_rust.Allocator.{Libc, World}
use hyperion_rust.Allocator
use hyperion_rust.Pointer.{set_bin_id, is_deflate}
use hyperion_rust.Bin.{Bin, Cache, is_empty, allocate_chunk_unchained, allocate_consecutive_chunks}
use hyperion_rust.Bin
use hyperion_rust.Bin.Named.{
  allocate_chunk_unchained-superbin_id, allocate_consecutive_chunks-superbin_id,
}
use hyperion_rust.Metabin.{
  State, Round, exhausted, allocated, locked, Result, returned, no_fuel, use_bin, open_bin, round,
  unlock, allocate_bin, bin_of, new_bin_allocation_space_available, lock,
}

module _ (l : Libc) where
  -- The id and the superbin.
  abbrev Names : ℕ → ℕ → State l → Type 0
  Names id superbin s = (s.metabin.id ≡ id) × (s.pointer.superbin_id ≡ superbin)

  abbrev RoundNames : ℕ → ℕ → Round l → Type 0
  RoundNames id superbin exhausted = Unit
  RoundNames id superbin (allocated s) = Names id superbin s
  RoundNames id superbin (locked s back) = Names id superbin s
  RoundNames id superbin Round.panicked = Unit

  -- A result names what it was given.
  abbrev pub ResultNames : ℕ → ℕ → Result l → Type 0
  ResultNames id superbin (returned b s) = (s.metabin.id ≡ id) × (s.pointer.superbin_id ≡ superbin)
  ResultNames id superbin Result.panicked = Unit
  ResultNames id superbin no_fuel = Unit

  use_bin-RoundNames :
      (c : Features) (chain_count id superbin : ℕ) (s : State l) (b : Bin)
      → Names id superbin s
      → RoundNames id superbin (use_bin l c chain_count s b)
  unfolding use_bin lock
  use_bin-RoundNames c chain_count id superbin s b h =
      if_both P (not (is_deflate b.header.compression_state))
        (if_both P (chain_count == 0)
          (if_both P (allocate_chunk_unchained c b s.pointer s.world.pseudorand).0
            (h.0, allocate_chunk_unchained-superbin_id c b s.pointer s.world.pseudorand ∙ h.1) h)
          (if_both P (allocate_consecutive_chunks b s.pointer).0
            (h.0, allocate_consecutive_chunks-superbin_id b s.pointer ∙ h.1) h))
        h
    where
      P : Round l → Type 0
      P = RoundNames id superbin

  open_bin-RoundNames :
      (c : Features) (chain_count id superbin : ℕ) (s : State l) (i : ℕ)
      → Names id superbin s
      → RoundNames id superbin (open_bin l c chain_count s i)
  unfolding open_bin
  open_bin-RoundNames c chain_count id superbin s i h = go (
      if is_empty (bin_of s.metabin i)
      then Bin.initialize l (bin_of s.metabin i) s.cache s.world
      else Allocator.done (bin_of s.metabin i, s.cache, s.world))
    where
      go :
          (r : Allocator.Run (Bin × Cache × World l))
          → RoundNames id superbin (elim r [
            | Allocator.panic ↦ Round.panicked
            | Allocator.done (b', cache, world) ↦
                use_bin l c chain_count
                  (record s { pointer = set_bin_id s.pointer i; cache = cache; world = world })
                  b'
          ])
      go Allocator.panic = tt
      go (Allocator.done (b', cache, world)) = use_bin-RoundNames c chain_count id superbin _ b' h

  round-RoundNames :
      (c : Features) (chain_count id superbin : ℕ) (s : State l)
      → Names id superbin s
      → RoundNames id superbin (round l c chain_count s)
  unfolding round
  round-RoundNames c chain_count id superbin s h =
      go (new_bin_allocation_space_available c s.metabin)
    where
      go :
          (o : Option ℕ)
          → RoundNames id superbin
              (elim o [ none ↦ exhausted | some candidate ↦ open_bin l c chain_count s candidate ])
      go none = tt
      go (some i) = open_bin-RoundNames c chain_count id superbin s i h

  unlock-ResultNames :
      (id superbin : ℕ) (back : Option (ℕ × ℕ)) (r : Result l)
      → ResultNames id superbin r
      → ResultNames id superbin (unlock l back r)
  unfolding unlock
  unlock-ResultNames id superbin none r h = h
  unlock-ResultNames id superbin (some back) (returned b s) h = h
  unlock-ResultNames id superbin (some back) Result.panicked h = tt
  unlock-ResultNames id superbin (some back) no_fuel h = tt

  pub allocate_bin-ResultNames :
      (c : Features) (chain_count fuel id superbin : ℕ) (s : State l)
      → s.metabin.id ≡ id
      → s.pointer.superbin_id ≡ superbin
      → ResultNames id superbin (allocate_bin l c fuel chain_count s)
  unfolding allocate_bin
  allocate_bin-ResultNames c chain_count zero id superbin s e1 e2 = tt
  allocate_bin-ResultNames c chain_count (suc fuel) id superbin s e1 e2 =
      go (round l c chain_count s) (round-RoundNames c chain_count id superbin s (e1, e2))
        (λ s' h. allocate_bin-ResultNames c chain_count fuel id superbin s' h.0 h.1)
    where
      go :
          (r : Round l)
          → RoundNames id superbin r
          → ((s' : State l)
              → Names id superbin s'
              → ResultNames id superbin (allocate_bin l c fuel chain_count s'))
          → ResultNames id superbin (elim r [
            | exhausted ↦ returned false s
            | allocated s' ↦ returned true s'
            | locked s' back ↦ unlock l back (allocate_bin l c fuel chain_count s')
            | Round.panicked ↦ Result.panicked
          ])
      go exhausted h ih = (e1, e2)
      go (allocated s') h ih = h
      go (locked s' back) h ih =
          unlock-ResultNames id superbin back (allocate_bin l c fuel chain_count s') (ih s' h)
      go Round.panicked h ih = tt
