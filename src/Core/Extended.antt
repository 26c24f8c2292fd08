-- ===== src/Core/Extended.antt =====
-- What core.rs does to an extended pointer: the search of a chain, reallocation and release.
use mathlib.Core.Path.{subst}
use hyperion_rust.Common.{
  Option, none, some, Bool-cases, inl, inr, ℕ, zero, suc, ◌+◌, ◌-◌, ◌*◌, ◌/◌, ◌%◌, ◌<◌, ◌≤◌, ◌≡◌,
  ◌≢◌, refl, ltb, leb, true, false, ◌==◌, ◌∙◌, arith, List, get_or, inl, inr, dec_lt, ℕ_discrete,
}
use hyperion_rust.Allocator.{
  Libc, World, done, heap, AllocatedBy, auto_free_memory, auto_reallocate_memory, free_heap,
}
use hyperion_rust.Core.{
  ExtendedHyperionPointer, alloc_size, as_i16, as_i32, i16_as_i32, i16_as_usize, i32_as_usize,
  has_data, roundup, reallocate_extended, resize, move_data, free_extended, clear_data,
  get_chained_pointer, chained_offset,
}
use hyperion_rust.Core.Roundup.{roundup_lem}

-- Where a chain has data: the last of the entries up to `n` that has. `none` if no entry has.
abbrev pub IsLast : List ExtendedHyperionPointer → ExtendedHyperionPointer → ℕ → Option ℕ → Type 0
IsLast ps d n none = (i : ℕ) → i ≤ n → has_data (get_or ps i d) ≡ false
IsLast ps d n (some o) =
    (o ≤ n)
    × (has_data (get_or ps o d) ≡ true)
    × ((i : ℕ) → o < i → i ≤ n → has_data (get_or ps i d) ≡ false)

module _ (ps : List ExtendedHyperionPointer) (d : ExtendedHyperionPointer) where
  IsLast-suc :
      (n : ℕ) (o : Option ℕ)
      → has_data (get_or ps (suc n) d) ≡ false
      → IsLast ps d n o
      → IsLast ps d (suc n) o
  IsLast-suc n none e h =
      λ i le. elim (ℕ_discrete i (suc n)) [ yes last ↦ rw last e | no earlier ↦ h i (omega arith) ]
  IsLast-suc n (some o) e h = (
    omega (arith, h.0),
    h.1,
    λ i lt le. elim (ℕ_discrete i (suc n)) [
      | yes last ↦ rw last e
      | no earlier ↦ h.2 i lt (omega arith)
    ],
  )

  IsLast-self : (n : ℕ) → has_data (get_or ps n d) ≡ true → IsLast ps d n (some n)
  IsLast-self n e = (omega arith, e, λ i lt le. absurd (omega arith))

  chained_offset-IsLast : (n : ℕ) → IsLast ps d n (chained_offset ps d n)
  unfolding chained_offset
  chained_offset-IsLast zero = elim (Bool-cases (has_data (get_or ps 0 d))) [
    | inl e ↦ rw e (IsLast-self 0 e)
    | inr e ↦ rw e (λ i le. subst (λ k. has_data (get_or ps k d) ≡ false) {x = 0} (omega arith) e)
  ]
  chained_offset-IsLast (suc n) = elim (Bool-cases (has_data (get_or ps (suc n) d))) [
    | inl e ↦ rw e (IsLast-self (suc n) e)
    | inr e ↦ rw e (IsLast-suc n (chained_offset ps d n) e (chained_offset-IsLast n))
  ]

-- The chained pointer for a character of 8 bits: of the entries up to the one that the character's
-- first 3 bits number, at most 7, the last that has data; the place before the first if none has.
pub get_chained_pointer_lem :
    (ps : List ExtendedHyperionPointer) (d : ExtendedHyperionPointer) (c : ℕ)
    → c < 256
    → IsLast ps d (c / 32) (get_chained_pointer ps d c) × (c / 32 ≤ 7)
unfolding get_chained_pointer
get_chained_pointer_lem ps d c h = (chained_offset-IsLast ps d (c / 32), omega arith)

pub i32_as_usize-small : (n : ℕ) → n < 2147483648 → i32_as_usize n ≡ n
unfolding i32_as_usize
i32_as_usize-small n h = ground arith

pub i16_as_usize-small : (n : ℕ) → n < 32768 → i16_as_usize n ≡ n
unfolding i16_as_usize
i16_as_usize-small n h = ground arith

i16_as_i32-small : (n : ℕ) → n < 32768 → i16_as_i32 n ≡ n
unfolding i16_as_i32
i16_as_i32-small n h = ground arith

-- Below 2^31 - 8192 bytes, less than 5120 of them unused, no sum overflows.
pub alloc_size-small :
    (e : ExtendedHyperionPointer)
    → e.requested_size < 2147475456
    → e.overallocated < 5120
    → alloc_size e ≡ e.requested_size + e.overallocated
unfolding alloc_size
alloc_size-small e h h' =
    rw (i16_as_i32-small e.overallocated (omega arith), whole)
      (i32_as_usize-small (e.requested_size + e.overallocated) (omega arith))
  where
    whole : (e.requested_size + e.overallocated) % 4294967296 ≡ e.requested_size + e.overallocated
    whole = omega arith

module _ (l : Libc) (dyn : ℕ) (e : ExtendedHyperionPointer) (size : ℕ) (w : World l)
    (small : e.requested_size < 2147475456) (small_size : size < 2147475456)
    (few_unused : e.overallocated < 5120) where
  as_usize : i32_as_usize e.requested_size ≡ e.requested_size
  as_usize = i32_as_usize-small e.requested_size (omega arith)

  over_as_usize : i16_as_usize e.overallocated ≡ e.overallocated
  over_as_usize = i16_as_usize-small e.overallocated (omega arith)

  total : alloc_size e ≡ e.requested_size + e.overallocated
  total = alloc_size-small e small few_unused

  stored_size : as_i32 size ≡ size
  stored_size = omega arith

  -- A reallocation to a size that fits what is allocated, and leaves less than 5120 bytes unused,
  -- where less than 5120 bytes were unused before and both sizes are below 2^31 - 8192, returns and
  -- changes only the accounting: the data stay, the size is the one that was requested, what is
  -- allocated keeps its sum, and the unused part stays below 5120.
  pub reallocate_extended_in_place :
      size ≤ alloc_size e
      → alloc_size e < size + 5120
      → (e' : ExtendedHyperionPointer) × (reallocate_extended l dyn e size w ≡ done (e', w))
        × (e'.data_pointer ≡ e.data_pointer)
        × (e'.requested_size ≡ size)
        × (alloc_size e' ≡ alloc_size e)
        × (e'.overallocated < 5120)
  unfolding reallocate_extended resize
  reallocate_extended_in_place h2 h3 = elim (dec_lt e.requested_size size) [
    | yes grow ↦ (
      grown,
      rw (as_usize, over_as_usize, room grow, fits) refl,
      refl,
      stored_size,
      alloc_size-small grown (omega (arith, stored_size)) (less_over grow)
          ∙ (omega (arith, stored_size, less_over_eq grow, total)),
      less_over grow,
    )
    | no shrink ↦ (
      shrunk,
      rw (as_usize, over_as_usize, no_growth shrink, kept shrink) refl,
      refl,
      stored_size,
      alloc_size-small shrunk (omega (arith, stored_size)) (more_over shrink)
          ∙ (omega (arith, stored_size, more_over_eq shrink, total)),
      more_over shrink,
    )
  ]
    where
      grown : ExtendedHyperionPointer
      grown = record e {
        overallocated = as_i16 (e.overallocated + (65536 - as_i16 (size - e.requested_size)));
        requested_size = as_i32 size;
        chance2nd_realloc = 0;
      }

      shrunk : ExtendedHyperionPointer
      shrunk = record e {
        overallocated = as_i16 (e.overallocated + as_i16 (e.requested_size - size));
        requested_size = as_i32 size;
        chance2nd_realloc = 0;
      }

      less_over_eq :
          e.requested_size < size → grown.overallocated + size ≡ e.overallocated + e.requested_size
      less_over_eq g = omega (arith, total)

      less_over : e.requested_size < size → grown.overallocated < 5120
      less_over g = omega (arith, less_over_eq g)

      more_over_eq :
          ¬ (e.requested_size < size)
          → shrunk.overallocated + size ≡ e.overallocated + e.requested_size
      more_over_eq g = omega (arith, total)

      more_over : ¬ (e.requested_size < size) → shrunk.overallocated < 5120
      more_over g = omega (arith, more_over_eq g, total)

      room : e.requested_size < size → ltb e.requested_size size ≡ true
      room g = ground arith

      fits : leb size ((e.requested_size + e.overallocated) % 18446744073709551616) ≡ true
      fits = ground (arith, total)

      no_growth : ¬ (e.requested_size < size) → ltb e.requested_size size ≡ false
      no_growth g = ground arith

      kept :
          ¬ (e.requested_size < size)
          → ltb ((e.overallocated + (e.requested_size - size)) % 18446744073709551616) 5120 ≡ true
      kept g = ground (arith, total)

  -- A reallocation beyond what is allocated, where both sizes are below 2^31 - 8192 and less than
  -- 5120 bytes were unused, the allocator succeeds and the increment is 256 to 4096 in steps of 256,
  -- returns: the allocator's pointer is stored, the size is the one that was requested, size and
  -- unused bytes are together the rounded size that was allocated, and at most 4096 are unused.
  pub reallocate_extended_moves :
      (p : ℕ) (by : AllocatedBy) (w' : World l) (steps : ℕ)
      → dyn ≡ steps * 256
      → 1 ≤ steps
      → steps ≤ 16
      → alloc_size e < size
      → auto_reallocate_memory l e.data_pointer (alloc_size e) (roundup dyn size) e.alloced_by w
        ≡ done (p, by, w')
      → (e' : ExtendedHyperionPointer) × (reallocate_extended l dyn e size w ≡ done (e', w'))
        × (e'.data_pointer ≡ p)
        × (e'.alloced_by ≡ by)
        × (e'.requested_size ≡ size)
        × (alloc_size e' ≡ roundup dyn size)
        × (e'.overallocated ≤ 4096)
  unfolding reallocate_extended resize move_data
  reallocate_extended_moves p by w' steps same h1 h2 beyond moved = (
    new,
    rw (as_usize, over_as_usize, grows, too_big, moved) refl,
    refl,
    refl,
    stored_size,
    alloc_size-small new (omega (arith, stored_size)) (omega (arith, bounds))
        ∙ (omega (arith, bounds, stored_size)),
    omega (arith, bounds),
  )
    where
      new : ExtendedHyperionPointer
      new = record e {
        data_pointer = p;
        alloced_by = by;
        overallocated = as_i16 (roundup dyn size - size);
        requested_size = as_i32 size;
        chance2nd_realloc = 0;
      }

      grows : ltb e.requested_size size ≡ true
      grows = ground (arith, total)

      too_big : leb size ((e.requested_size + e.overallocated) % 18446744073709551616) ≡ false
      too_big = ground (arith, total)

      bounds : (size < roundup dyn size) × (roundup dyn size ≤ size + 4096)
      bounds = rw same ((roundup_lem steps size h1 h2).0, (roundup_lem steps size h1 h2).1)

-- Releasing an extended pointer that has data on the heap returns, has called `free` on its
-- address twice, and leaves the null pointer.
pub free_extended_twice :
    (l : Libc) (e : ExtendedHyperionPointer) (w : World l)
    → e.data_pointer ≢ 0
    → e.alloced_by ≡ heap
    → free_extended l e w
      ≡ done (
        record e { data_pointer = 0 },
        record w { mem = l.free e.data_pointer (l.free e.data_pointer w.mem) },
      )
unfolding free_extended clear_data auto_free_memory free_heap
free_extended_twice l e w h on_heap = rw (on_heap, not_null) refl
  where
    not_null : (e.data_pointer == 0) ≡ false
    not_null = ground arith
