-- ===== src/Core/Reallocate/Valid.antt =====
-- Look-up and reallocation keep an arena valid.
use hyperion_rust.Common.{ℕ, ◌%◌, ◌<◌, refl, ◌==◌, ltb, ◌||◌, not, if_both}
use hyperion_rust.Simd.Lanes.{Features}
use hyperion_rust.Simd.AllBits.Laws.{HasVectors}
use hyperion_rust.Allocator.{Libc, Run, done, panic}
use hyperion_rust.Allocator.Each.{Each, Each->>=}
use hyperion_rust.Pointer.{HyperionPointer, is_extended_pointer}
use hyperion_rust.Metabin.{bin_of, put_bin}
use hyperion_rust.Superbin.{get_sblock_id}
use hyperion_rust.Core
use hyperion_rust.Core.{as_i32, i32_as_usize, min_i32}
use hyperion_rust.Core.Chunks.{
  Access, ArenaInner, get_superbin_ref, get_metabin_ref, get_bin_ref, extended_address,
  chained_address, decompressed, mark_read, get_chunk_pointer, get_chunk_pointer_from_extended,
  get_chunk, read_extended,
}
use hyperion_rust.Core.Valid.{AreValid, put_metabin-AreValid}
use hyperion_rust.Core.Allocate.{
  Outcome, finished, panicked, no_fuel, and_then, lift, get_new_pointer,
}
use hyperion_rust.Core.Allocate.Valid.{Kept, get_new_pointer-Kept}
use hyperion_rust.Core.Free.{free_from_pointer}
use hyperion_rust.Core.Free.Valid.{free_from_pointer-EachValid}
use hyperion_rust.Core.Reallocate.{
  copy, copy_size, reallocate_hyperion_pointer, reallocate_shrink, reallocate_at,
  reallocate_extended, reallocate_extended_pointer, reallocate_from_pointer,
}

-- The predicate holds of what was returned, if anything was.
abbrev pub Holds {ℓ} : {A : Type ℓ} → (A → Type 0) → Outcome A → Type 0
Holds P (finished a) = P a
Holds P panicked = Unit
Holds P no_fuel = Unit

pub Holds-and_then {ℓ κ} :
    {A : Type ℓ} {B : Type κ} (Q : A → Type 0) (P : B → Type 0) (o : Outcome A) (f : A → Outcome B)
    → Holds Q o
    → ((a : A) → Q a → Holds P (f a))
    → Holds P (and_then o f)
Holds-and_then Q P (finished a) f h g = g a h
Holds-and_then Q P panicked f h g = tt
Holds-and_then Q P no_fuel f h g = tt

pub anything {ℓ} : {A : Type ℓ} (o : Outcome A) → Holds (λ _. Unit) o
anything (finished a) = tt
anything panicked = tt
anything no_fuel = tt

pub Holds-lift {ℓ} : {A : Type ℓ} (P : A → Type 0) (r : Run A) → Each P r → Holds P (lift r)
Holds-lift P (done a) h = h
Holds-lift P panic h = tt

module _ (floor : ℕ → ℕ) (l : Libc) (x : Access l) where
  abbrev FirstValid : ArenaInner l × ℕ → Type 0
  FirstValid r = AreValid floor r.0.superbins

  -- Looking up what a pointer with one of the 64 superbins refers to, for any character, in an arena
  -- whose superbins are valid: if it does not panic, they are valid again. It has marked the bin or
  -- the extended pointer as read.
  pub get_chunk-AreValid :
      (a : ArenaInner l) (p : HyperionPointer) (needed_character : ℕ)
      → AreValid floor a.superbins
      → p.superbin_id < 64
      → Each (λ r. AreValid floor r.0.superbins) (get_chunk l x a p needed_character)
  unfolding get_chunk get_chunk_pointer_from_extended
  get_chunk-AreValid a p needed_character v few =
      if_both (Each FirstValid) (is_extended_pointer p)
        (Each->>= FirstValid (get_bin_ref l a p) _ (λ b e.
          if_both (Each FirstValid)
            (not ((x.load (extended_address b p) a.world.mem).chained_pointer_count == 0))
            (Each->>= FirstValid
              (decompressed l x (
                x.load (chained_address l x (extended_address b p) needed_character a.world)
                  a.world.mem))
              (λ _. done (
                read_extended l x a
                  (chained_address l x (extended_address b p) needed_character a.world)))
              (λ e' h. v))
            v))
        (Each->>= FirstValid (get_chunk_pointer l a p) _ (λ address e.
          Each->>= FirstValid (get_metabin_ref l a p) _ (λ m e'.
            put_metabin-AreValid l a p v few m (put_bin m p.bin_id (mark_read (bin_of m p.bin_id)))
              e' refl (λ h. h))))

module _ (floor : ℕ → ℕ) (l : Libc) (x : Access l) (c : Features) (dyn fuel : ℕ)
    (vec : HasVectors c) where
  -- The superbins are valid, and the pointer names one of them.
  abbrev pub IsKept : ArenaInner l × HyperionPointer → Type 0
  IsKept (a, p) = AreValid floor a.superbins × (p.superbin_id < 64)

  allocated :
      (size : ℕ) (a : ArenaInner l)
      → AreValid floor a.superbins
      → Holds IsKept (get_new_pointer l x c dyn fuel size 0 a)
  allocated size a v =
      go (get_new_pointer l x c dyn fuel size 0 a)
        (get_new_pointer-Kept floor l x dyn c fuel size 0 a v)
    where
      go : (o : Outcome (ArenaInner l × HyperionPointer)) → Kept floor l o → Holds IsKept o
      go (finished (a', p)) h = (h.0, h.1)
      go panicked h = tt
      go no_fuel h = tt

  looked_up :
      (a : ArenaInner l) (p : HyperionPointer)
      → AreValid floor a.superbins
      → p.superbin_id < 64
      → Holds (FirstValid floor l x) (lift (get_chunk l x a p 0))
  looked_up a p v few =
      Holds-lift (FirstValid floor l x) (get_chunk l x a p 0)
        (get_chunk-AreValid floor l x a p 0 v few)

  -- The old chunk is freed, and the new pointer returned.
  released :
      (a : ArenaInner l) (p new : HyperionPointer)
      → AreValid floor a.superbins
      → p.superbin_id < 64
      → new.superbin_id < 64
      → Holds IsKept (and_then (lift (free_from_pointer l x c a p)) (λ a'. finished (a', new)))
  released a p new v few new_few =
      Holds-and_then (λ a'. AreValid floor a'.superbins) IsKept (lift (free_from_pointer l x c a p))
        (λ a'. finished (a', new))
        (Holds-lift (λ a'. AreValid floor a'.superbins) (free_from_pointer l x c a p)
          (free_from_pointer-EachValid floor l x p few c a vec v))
        (λ a' h. (h, new_few))

  module _ (a : ArenaInner l) (p : HyperionPointer) (v : AreValid floor a.superbins)
      (few : p.superbin_id < 64) where
    at_address :
        (address size : ℕ)
        → Each (λ a'. AreValid floor a'.superbins) (reallocate_at l x c dyn fuel a address size)
    at_address address size =
        Each->>= (λ a'. AreValid floor a'.superbins)
          (Core.reallocate_extended l dyn (x.load address a.world.mem) size a.world) _ (λ r e. v)

    reallocate_hyperion_pointer-IsKept :
        (size : ℕ) → Holds IsKept (reallocate_hyperion_pointer l x c dyn fuel a p size)
    unfolding reallocate_hyperion_pointer
    reallocate_hyperion_pointer-IsKept size =
        if_both (Holds IsKept) (get_sblock_id (size % 4294967296) == p.superbin_id) (v, few)
          (Holds-and_then IsKept IsKept (get_new_pointer l x c dyn fuel size 0 a) _
            (allocated size a v)
            (λ new h1.
              Holds-and_then (FirstValid floor l x) IsKept (lift (get_chunk l x new.0 p 0)) _
                (looked_up new.0 p h1.0 few)
                (λ old h2.
                  Holds-and_then (FirstValid floor l x) IsKept (lift (get_chunk l x old.0 new.1 0))
                    _ (looked_up old.0 new.1 h2 h1.1)
                    (λ fresh h3.
                      released
                        (copy l x c dyn fuel fresh.0 fresh.1 old.1
                          (copy_size (get_superbin_ref l fresh.0 p) size))
                        p new.1 h3 few h1.1))))

    reallocate_shrink-IsKept : (size : ℕ) → Holds IsKept (reallocate_shrink l x c dyn fuel a p size)
    unfolding reallocate_shrink
    reallocate_shrink-IsKept size =
        Holds-and_then IsKept IsKept (get_new_pointer l x c dyn fuel size 0 a) _
          (allocated size a v)
          (λ new h1.
            Holds-and_then (FirstValid floor l x) IsKept (lift (get_chunk l x new.0 new.1 0)) _
              (looked_up new.0 new.1 h1.0 h1.1)
              (λ fresh h2.
                Holds-and_then (λ b. Unit) IsKept (lift (get_bin_ref l fresh.0 p)) _
                  (anything (lift (get_bin_ref l fresh.0 p)))
                  (λ b _.
                    let e = x.load (extended_address b p) fresh.0.world.mem in
                    released
                      (copy l x c dyn fuel fresh.0 fresh.1 e.data_pointer
                        (i32_as_usize (min_i32 e.requested_size (as_i32 size))))
                      p new.1 h2 few h1.1)))

    reallocate_extended-AreValid :
        (size needed_character count : ℕ)
        → Each
            (λ a'. AreValid floor a'.superbins)
            (reallocate_extended l x c dyn fuel a p size needed_character count)
    unfolding reallocate_extended
    reallocate_extended-AreValid size needed_character count =
        Each->>= (λ a'. AreValid floor a'.superbins) (get_bin_ref l a p) _
          (λ b e.
            let head = extended_address b p in
            let chained = chained_address l x head needed_character a.world in
            if_both (Each (λ a'. AreValid floor a'.superbins)) (ltb 0 count)
              (Each->>= (λ a'. AreValid floor a'.superbins)
                (decompressed l x (x.load chained a.world.mem)) _ (λ _ _. at_address chained size))
              (at_address head size))

    -- Reallocating what a pointer with one of the 64 superbins refers to, to any size, with AVX2 or
    -- SSE4.1, in an arena whose superbins are valid, with any number of rounds: if it returns, they
    -- are valid again, and the pointer to use from now on names one of them.
    pub reallocate_from_pointer-IsKept :
        (size needed_character : ℕ)
        → Holds IsKept (reallocate_from_pointer l x c dyn fuel a p size needed_character)
    unfolding reallocate_from_pointer reallocate_extended_pointer
    reallocate_from_pointer-IsKept size needed_character =
        if_both (Holds IsKept) (is_extended_pointer p)
          (Holds-and_then (λ b. Unit) IsKept (lift (get_bin_ref l a p)) _
            (anything (lift (get_bin_ref l a p)))
            (λ b _.
              let count = (x.load (extended_address b p) a.world.mem).chained_pointer_count in
              if_both (Holds IsKept) (ltb 0 count || (get_sblock_id (size % 4294967296) == 0))
                (Holds-and_then (λ a'. AreValid floor a'.superbins) IsKept
                  (lift (reallocate_extended l x c dyn fuel a p size needed_character count)) _
                  (Holds-lift (λ a'. AreValid floor a'.superbins)
                    (reallocate_extended l x c dyn fuel a p size needed_character count)
                    (reallocate_extended-AreValid size needed_character count))
                  (λ a' h. (h, few)))
                (reallocate_shrink-IsKept size)))
          (reallocate_hyperion_pointer-IsKept size)
