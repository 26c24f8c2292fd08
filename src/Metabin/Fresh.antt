-- ===== src/Metabin/Fresh.antt =====
-- A search of a metabin that was just initialised: every bin is free.
use hyperion_rust.Common.{
  ℕ, zero, suc, ◌*◌, ◌≡◌, ◌≢◌, refl, sym, ap, subst, ◌∙◌, ◌==◌, not, true, false, ◌∷◌, Option, none,
  some, arith, replicate, get_or, All, length, inl, inr, if_both, length-replicate,
}
use hyperion_rust.Common.Bits.{bit_at}
use hyperion_rust.Common.Lists.{All-replicate}
use hyperion_rust.Simd.Lanes.{Features}
use hyperion_rust.Mask.{IsWord, free_at}
use hyperion_rust.Allocator.{Libc, World, Run, AllocatedBy, auto_allocate_memory}
use hyperion_rust.Allocator
use hyperion_rust.Allocator.Each.{Each, Each->>=}
use hyperion_rust.Pointer.{HyperionPointer, CompressionState, set_bin_id, is_deflate}
use hyperion_rust.Bin.{
  Bin, Cache, default_bin, fill, allocate_chunk_unchained, allocate_consecutive_chunks,
}
use hyperion_rust.Bin
use hyperion_rust.Bin.Laws.{IsValid}
use hyperion_rust.Bin.Allocate.{allocate_chunk_unchained_lem, allocate_consecutive_chunks_lem}
use hyperion_rust.Metabin.{
  Metabin, default_metabin, bin_of, State, Round, Result, round, open_bin, use_bin, allocate_bin,
  new_bin_allocation_space_available,
}
use hyperion_rust.Metabin
use hyperion_rust.Metabin.Allocate.{
  IsMask, IsCandidate, new_bin_allocation_space_available-IsCandidate,
}

fill-replicate : (v n w : ℕ) → fill v (replicate n w) ≡ replicate n v
unfolding fill
fill-replicate v zero w = refl
fill-replicate v (suc n) w = ap (λ ws. v ∷ ws) (fill-replicate v n w)

get_or-replicate {ℓ} : {A : Type ℓ} (n i : ℕ) (a : A) → get_or (replicate n a) i a ≡ a
get_or-replicate zero i a = refl
get_or-replicate (suc n) zero a = refl
get_or-replicate (suc n) (suc i) a = get_or-replicate n i a

-- A bin as `initialize` leaves it.
abbrev IsFresh : Bin → Type 0
IsFresh b =
    (b.chunk_usage_mask ≡ replicate 128 255)
    × (b.header.compression_state ≡ CompressionState.uncompressed)

module _ (l : Libc) where
  initialize-IsFresh :
      (s : Cache) (w : World l) → Each (λ r. IsFresh r.0) (Bin.initialize l default_bin s w)
  unfolding Bin.initialize
  initialize-IsFresh s w =
      if_both (Each (λ r. IsFresh r.0)) (not (s.bin_cache == 0)) (fill-replicate 255 128 0, refl)
        (Each->>= (λ r. IsFresh r.0) (auto_allocate_memory l (s.size_of_bin * 4096) w) _
          (λ r e. (fill-replicate 255 128 0, refl)))

IsFresh-IsValid : (b : Bin) → IsFresh b → IsValid b
IsFresh-IsValid b h = record {
  size = ap length h.0 ∙ length-replicate {A = ℕ} 128 255;
  words = subst (All IsWord) (sym h.0) (All-replicate IsWord 128 255 (omega arith));
}

-- A fresh bin gives a chunk, and eight.
module _ (c : Features) (b : Bin) (p : HyperionPointer) (fresh : IsFresh b) where
  gives_one : (pseudorand : ℕ) → (allocate_chunk_unchained c b p pseudorand).0 ≡ true
  gives_one pseudorand =
      elim (allocate_chunk_unchained_lem c b p pseudorand (IsFresh-IsValid b fresh)) [
        | inl failed ↦ absurd (some_free (failed.1 0))
        | inr found ↦ found.1
      ]
    where
      some_free : free_at b.chunk_usage_mask 0 ≢ 0
      some_free = rw fresh.0 (unfold bit_at in omega arith)

  gives_eight : (allocate_consecutive_chunks b p).0 ≡ true
  gives_eight = elim (allocate_consecutive_chunks_lem b p (IsFresh-IsValid b fresh)) [
    | inl failed ↦ absurd (failed.1 0 (omega arith) (ap (λ m. get_or m 0 0) fresh.0))
    | inr found ↦ found.4
  ]

module _ (l : Libc) (c : Features) (chain_count : ℕ) where
  -- A round of a search: it gave a chunk, or it panicked.
  abbrev Gives : Round l → Type 0
  Gives (Metabin.Round.allocated s) = Unit
  Gives Metabin.Round.panicked = Unit
  Gives Metabin.Round.exhausted = ⊥
  Gives (Metabin.Round.locked s back) = ⊥

  use_bin-Gives : (s : State l) (b : Bin) → IsFresh b → Gives (use_bin l c chain_count s b)
  unfolding use_bin
  use_bin-Gives s b fresh =
      rw (gives_one c b s.pointer fresh s.world.pseudorand, gives_eight c b s.pointer fresh, plain)
        (if_both Gives (chain_count == 0) tt tt)
    where
      plain : is_deflate b.header.compression_state ≡ false
      plain = rw fresh.1 refl

  open_bin-Gives :
      (s : State l) (i : ℕ)
      → bin_of s.metabin i ≡ default_bin
      → Gives (open_bin l c chain_count s i)
  unfolding open_bin
  open_bin-Gives s i e =
      rw (e, Gives)
        (go (Bin.initialize l default_bin s.cache s.world) (initialize-IsFresh l s.cache s.world))
    where
      go :
          (r : Run (Bin × Cache × World l))
          → Each (λ t. IsFresh t.0) r
          → Gives (elim r [
            | Allocator.panic ↦ Metabin.Round.panicked
            | Allocator.done (b', cache, world) ↦
                use_bin l c chain_count
                  (record s { pointer = set_bin_id s.pointer i; cache = cache; world = world })
                  b'
          ])
      go Allocator.panic h = tt
      go (Allocator.done (b', cache, world)) h =
          use_bin-Gives
            (record s { pointer = set_bin_id s.pointer i; cache = cache; world = world }) b' h

-- The result of a search that gave a chunk, or panicked.
abbrev pub Succeeds : {l : Libc} → Result l → Type 0
Succeeds (Metabin.returned found s) = found ≡ true
Succeeds Metabin.Result.panicked = Unit
Succeeds Metabin.no_fuel = ⊥

-- The search of a metabin that was just initialised gives a chunk in its first round, or eight,
-- unless the allocation of the bin's memory panics.
pub allocate_bin-Succeeds :
    (l : Libc) (c : Features) (chain_count fuel id : ℕ) (s : State l)
    → s.metabin ≡ Metabin.initialize default_metabin id
    → Succeeds (allocate_bin l c (suc fuel) chain_count s)
unfolding allocate_bin
allocate_bin-Succeeds l c chain_count fuel id s e = go (round l c chain_count s) gives
  where
    mask_eq : s.metabin.bin_usage_mask ≡ replicate 8 255
    mask_eq = ap (λ m. m.bin_usage_mask) e ∙ (unfold Metabin.initialize in fill-replicate 255 8 0)

    mask-IsMask : IsMask s.metabin.bin_usage_mask
    mask-IsMask = record {
      size = ap length mask_eq ∙ length-replicate {A = ℕ} 8 255;
      words = subst (All IsWord) (sym mask_eq) (All-replicate IsWord 8 255 (omega arith));
    }

    some_free : free_at s.metabin.bin_usage_mask 0 ≢ 0
    some_free = rw mask_eq (unfold bit_at in omega arith)

    every_default : (i : ℕ) → bin_of s.metabin i ≡ default_bin
    every_default i =
        ap (λ m. bin_of m i) e ∙ (unfold Metabin.initialize in get_or-replicate 256 i default_bin)

    candidate :
        (o : Option ℕ)
        → IsCandidate s.metabin.bin_usage_mask o
        → Gives l c chain_count
            (elim o [ none ↦ Metabin.Round.exhausted | some i ↦ open_bin l c chain_count s i ])
    candidate none h = absurd (some_free (h 0))
    candidate (some i) h = open_bin-Gives l c chain_count s i (every_default i)

    gives : Gives l c chain_count (round l c chain_count s)
    gives =
        unfold round in
        candidate (new_bin_allocation_space_available c s.metabin)
          (new_bin_allocation_space_available-IsCandidate c s.metabin mask-IsMask)

    go :
        (r : Round l)
        → Gives l c chain_count r
        → Succeeds (elim r [
          | Metabin.exhausted ↦ Metabin.returned false s
          | Metabin.allocated s' ↦ Metabin.returned true s'
          | Metabin.locked s' back ↦ Metabin.unlock l back (allocate_bin l c fuel chain_count s')
          | Metabin.Round.panicked ↦ Metabin.Result.panicked
        ])
    go (Metabin.Round.allocated s') h = refl
    go Metabin.Round.panicked h = tt
    go Metabin.Round.exhausted h = absurd h
    go (Metabin.Round.locked s' back) h = absurd h
