-- ===== src/Core/Buffer.antt =====
-- What an extended pointer promises its client, a buffer of a capacity, and that `reallocate_extended`
-- keeps the promise.
use hyperion_rust.Common.{
  ℕ, subst, ◌+◌, ◌-◌, ◌*◌, ◌%◌, ◌<◌, ◌≤◌, ◌≡◌, ◌≢◌, refl, sym, ◌∙◌, ◌==◌, ltb, if◌then◌else◌, true,
  false, List, [], ◌∷◌, arith, dec_lt, dec_le, All, ap,
}
use hyperion_rust.Allocator.{
  Libc, World, Run, done, ◌>>=◌, AllocatedBy, mmap, heap, auto_free_memory, auto_reallocate_memory,
  free_mmap, free_heap,
}
use hyperion_rust.Core.{
  ExtendedHyperionPointer, alloc_size, roundup, reallocate_extended, resize, move_data, as_i32,
}
use hyperion_rust.Core.Extended.{
  reallocate_extended_in_place, reallocate_extended_moves, i32_as_usize-small, i16_as_usize-small,
  alloc_size-small,
}
use hyperion_rust.Core.Roundup.{roundup_lem}

-- A change of the capacity by a request of a size: it stays if the size fits and leaves less than
-- 5120 bytes unused; it grows, by at most 4096 bytes more than needed; or it shrinks to the size.
pub data Step (capacity size : ℕ) : ℕ → Type 0 where
  keeps : size ≤ capacity → capacity < size + 5120 → Step capacity size capacity
  grows :
      {capacity' : ℕ}
      → capacity < size
      → size ≤ capacity'
      → capacity' ≤ size + 4096
      → Step capacity size capacity'
  shrinks : size + 5120 ≤ capacity → Step capacity size size

-- A list of requests, the first first.
pub data Steps : ℕ → List ℕ → ℕ → Type 0 where
  stop : {capacity : ℕ} → Steps capacity [] capacity
  step :
      {capacity size capacity' capacity'' : ℕ} {sizes : List ℕ}
      → Step capacity size capacity'
      → Steps capacity' sizes capacity''
      → Steps capacity (size ∷ sizes) capacity''

-- The C library never runs out of memory, and unmaps what it has mapped.
pub record IsReliable (l : Libc) : Type 0 where
  pub calloc_gives : (n : ℕ) (m : l.Mem) → (l.calloc n m).0 ≢ 0
  pub munmap_works : (p n : ℕ) (m : l.Mem) → (l.munmap p n m).0 ≡ true

-- 2^31 - 8192: below it, no i32 of the accounting overflows.
abbrev pub small_size : ℕ
small_size = 2147475456

-- It has data, less than the small size, and less than 5120 bytes unused.
pub record IsBuffer (e : ExtendedHyperionPointer) : Type 0 where
  pub there : e.data_pointer ≢ 0
  pub small : e.requested_size < small_size
  pub few_unused : e.overallocated < 5120

-- The requests one after the other.
unfoldable pub reallocate_all :
    (l : Libc)
    → ℕ
    → ExtendedHyperionPointer
    → List ℕ
    → World l
    → Run (ExtendedHyperionPointer × World l)
reallocate_all l dyn e [] w = done (e, w)
reallocate_all l dyn e (size ∷ sizes) w =
    reallocate_extended l dyn e size w >>= λ r. reallocate_all l dyn r.0 sizes r.1

null : (n : ℕ) → n ≢ 0 → (n == 0) ≡ false
null n h = ground arith

module _ (l : Libc) (reliable : IsReliable l) where
  auto_free_memory_works :
      (ptr size : ℕ) (by : AllocatedBy) (w : World l)
      → ptr ≢ 0
      → (w' : World l) × (auto_free_memory l ptr size by w ≡ done (true, w'))
  unfolding auto_free_memory free_mmap free_heap
  auto_free_memory_works ptr size mmap w h =
      ((free_mmap l ptr size w).1, rw (null ptr h, reliable.munmap_works ptr size w.mem) refl)
  auto_free_memory_works ptr size heap w h = ((free_heap l ptr w).1, rw (null ptr h) refl)

  auto_reallocate_memory_works :
      (old old_size new_size : ℕ) (by : AllocatedBy) (w : World l)
      → old ≢ 0
      → (p : ℕ) × (w' : World l) × (p ≢ 0)
        × (auto_reallocate_memory l old old_size new_size by w ≡ done (p, heap, w'))
  unfolding auto_reallocate_memory
  auto_reallocate_memory_works old old_size new_size by w h =
      let r = l.calloc new_size w.mem in
      let copied = if ltb old_size new_size then old_size else new_size in
      let freed =
        auto_free_memory_works old old_size by (record w { mem = l.memcpy r.0 old copied r.1 }) h in
      (
        r.0,
        freed.0,
        reliable.calloc_gives new_size w.mem,
        rw (null r.0 (reliable.calloc_gives new_size w.mem), freed.1) refl,
      )

  module _ (dyn steps : ℕ) (same : dyn ≡ steps * 256) (some_steps : 1 ≤ steps)
      (few_steps : steps ≤ 16) where
    -- A request returns a buffer, by a step of the capacity.
    abbrev Requested : ExtendedHyperionPointer → ℕ → World l → Type 0
    Requested e size w =
        (e' : ExtendedHyperionPointer) × (w' : World l) × (reallocate_extended l dyn e size w
          ≡ done (e', w'))
        × (e'.requested_size ≡ size)
        × IsBuffer e'
        × Step (alloc_size e) size (alloc_size e')

    request_keeps :
        (e : ExtendedHyperionPointer) (size : ℕ) (w : World l)
        → IsBuffer e
        → size < small_size
        → size ≤ alloc_size e
        → alloc_size e < size + 5120
        → Requested e size w
    request_keeps e size w h bound fits few =
        let (e', r, same_data, requested, capacity, unused) =
          reallocate_extended_in_place l dyn e size w h.small bound h.few_unused fits few in
        (
          e',
          w,
          r,
          requested,
          record {
            there = λ z. h.there (sym same_data ∙ z);
            small = omega (arith, requested);
            few_unused = unused;
          },
          subst (λ k. Step (alloc_size e) size k) (sym capacity) (keeps fits few),
        )

    request_grows :
        (e : ExtendedHyperionPointer) (size : ℕ) (w : World l)
        → IsBuffer e
        → size < small_size
        → alloc_size e < size
        → Requested e size w
    request_grows e size w h bound beyond =
        let (p, w', p_there, moved) =
          auto_reallocate_memory_works e.data_pointer (alloc_size e) (roundup dyn size) e.alloced_by
            w h.there in
        let (e', r, same_data, _, requested, capacity, unused) =
          reallocate_extended_moves l dyn e size w h.small bound h.few_unused p heap w' steps same
            some_steps few_steps beyond moved in
        let rounded = roundup_lem steps size some_steps few_steps in
        (
          e',
          w',
          r,
          requested,
          record {
            there = λ z. p_there (sym same_data ∙ z);
            small = omega (arith, requested);
            few_unused = omega (arith, unused);
          },
          subst (λ k. Step (alloc_size e) size k) (sym (capacity ∙ ap (λ d. roundup d size) same))
              (grows beyond (omega (arith, rounded)) rounded.1),
        )

    request_shrinks :
        (e : ExtendedHyperionPointer) (size : ℕ) (w : World l)
        → IsBuffer e
        → size < small_size
        → size + 5120 ≤ alloc_size e
        → Requested e size w
    unfolding reallocate_extended resize move_data
    request_shrinks e size w h bound much =
        let (p, w', p_there, moved) =
          auto_reallocate_memory_works e.data_pointer (alloc_size e) (roundup dyn size) e.alloced_by
            w h.there in
        (
          new p,
          w',
          rw
              (
                i32_as_usize-small e.requested_size (omega (arith, h.small)),
                i16_as_usize-small e.overallocated (omega (arith, h.few_unused)),
                no_growth,
                too_much,
                moved,
              )
              refl,
          stored_size,
          record { there = p_there; small = omega (arith, stored_size); few_unused = omega arith },
          subst (λ k. Step (alloc_size e) size k) {x = size} (sym (whole p)) (shrinks much),
        )
      where
        new : ℕ → ExtendedHyperionPointer
        new p = record e {
          data_pointer = p;
          alloced_by = heap;
          overallocated = 0;
          requested_size = as_i32 size;
          chance2nd_realloc = 0;
        }

        stored_size : as_i32 size ≡ size
        stored_size = omega arith

        whole : (p : ℕ) → alloc_size (new p) ≡ size
        whole p =
            alloc_size-small (new p) (omega (arith, stored_size)) (omega arith)
            ∙ omega (arith, stored_size)

        total : alloc_size e ≡ e.requested_size + e.overallocated
        total = alloc_size-small e h.small h.few_unused

        no_growth : ltb e.requested_size size ≡ false
        no_growth = ground (arith, total, h.few_unused)

        too_much :
            ltb ((e.overallocated + (e.requested_size - size)) % 18446744073709551616) 5120 ≡ false
        too_much = ground (arith, total, h.small, h.few_unused)

    -- One request, in any of the three cases.
    request :
        (e : ExtendedHyperionPointer) (size : ℕ) (w : World l)
        → IsBuffer e
        → size < small_size
        → Requested e size w
    request e size w h bound = elim (dec_le size (alloc_size e)) [
      | no beyond ↦ request_grows e size w h bound (omega arith)
      | yes fits ↦ elim (dec_lt (alloc_size e) (size + 5120)) [
        | yes few ↦ request_keeps e size w h bound fits few
        | no much ↦ request_shrinks e size w h bound (omega arith)
      ]
    ]

    -- Reallocating an extended pointer to one size after the other refines the steps of a buffer's
    -- capacity: from a pointer with data, a size below 2^31 - 8192 and less than 5120 unused bytes,
    -- with an increment of 256 to 4096 in steps of 256 and a C library that has memory left and
    -- unmaps what it mapped, every list of sizes below 2^31 - 8192 returns, the capacity takes the
    -- steps that the sizes ask for, and again there are data, a size below 2^31 - 8192 and less than
    -- 5120 unused bytes.
    pub reallocate_all-Steps :
        (sizes : List ℕ) (e : ExtendedHyperionPointer) (w : World l)
        → IsBuffer e
        → All (λ size. size < small_size) sizes
        → (e' : ExtendedHyperionPointer) × (w' : World l) × (reallocate_all l dyn e sizes w
            ≡ done (e', w'))
          × IsBuffer e'
          × Steps (alloc_size e) sizes (alloc_size e')
    unfolding reallocate_all
    reallocate_all-Steps [] e w h bounds = (e, w, refl, h, stop)
    reallocate_all-Steps (size ∷ sizes) e w h bounds =
        let (e1, w1, r1, _, h1, s1) = request e size w h bounds.0 in
        let (e2, w2, r2, h2, s2) = reallocate_all-Steps sizes e1 w1 h1 bounds.1 in
        (e2, w2, rw r1 r2, h2, step s1 s2)
