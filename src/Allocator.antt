-- ===== src/Allocator.antt =====
-- memorymanager/internals/allocator.rs, over the C library's allocation functions, which are a
-- parameter. An address is a number, and 0 is the null pointer.
pub mod Each
use hyperion_rust.Common.{
  ℕ, zero, suc, ◌%◌, ◌==◌, if◌then◌else◌, Bool, true, false, not, Option, none, some, ltb,
}

-- What the source uses of libc. `Mem` is the process's memory with the state of the allocators.
pub record Libc : Type 1 where
  pub Mem : Type 0
  pub page_size : ℕ
  pub malloc : ℕ → Mem → ℕ × Mem
  pub calloc : ℕ → Mem → ℕ × Mem
  -- `none` is MAP_FAILED.
  pub mmap : ℕ → Mem → Option ℕ × Mem
  -- Whether `munmap` returned 0.
  pub munmap : ℕ → ℕ → Mem → Bool × Mem
  pub free : ℕ → Mem → Mem
  -- `memset(p, 0, n)` and `memcpy(dest, src, n)`.
  pub memzero : ℕ → ℕ → Mem → Mem
  pub memcpy : ℕ → ℕ → ℕ → Mem → Mem

pub data AllocatedBy : Type 0 where
  mmap heap : AllocatedBy

unfoldable pub allocated_by_into_bits : AllocatedBy → ℕ
allocated_by_into_bits mmap = 0
allocated_by_into_bits heap = 1

-- `none` is the panic on an undefined value.
unfoldable pub allocated_by_from_bits : ℕ → Option AllocatedBy
allocated_by_from_bits zero = some mmap
allocated_by_from_bits (suc zero) = some heap
allocated_by_from_bits (suc (suc n)) = none

-- The result of code that can panic.
pub data Run {ℓ} (A : Type ℓ) : Type ℓ where
  done : A → Run A
  panic : Run A

infixl 5 ◌>>=◌
abbrev pub ◌>>=◌ {ℓ κ} : {A : Type ℓ} {B : Type κ} → Run A → (A → Run B) → Run B
done a >>= f = f a
panic >>= f = panic

abbrev pub assert : Bool → Run (Unit {0})
assert true = done tt
assert false = panic

-- The memory, the flag `ABORTED` and the static `PSEUDORAND` of the searches.
pub record World (l : Libc) : Type 0 where
  pub mem : l.Mem
  pub aborted : Bool
  pub pseudorand : ℕ

module _ (l : Libc) where
  -- `abort` panics the first time. Once `ABORTED` is set it returns.
  pub abort : World l → Run (World l)
  abort w = if not w.aborted then panic else done w

  pub allocate_mmap : ℕ → World l → ℕ × World l
  allocate_mmap size w =
      let r = l.mmap size w.mem in (elim r.0 [ none ↦ 0 | some p ↦ p ], record w { mem = r.1 })

  pub allocate_heap : ℕ → World l → ℕ × World l
  allocate_heap size w =
      let r = l.malloc size w.mem in
      (r.0, record w { mem = if not (r.0 == 0) then l.memzero r.0 size r.1 else r.1 })

  -- From the `mmap` on: the pointer, how it was allocated, and the world.
  map_pages : ℕ → World l → Run (ℕ × AllocatedBy × World l)
  unfolding abort allocate_mmap
  map_pages size w =
      let r = allocate_mmap size w in
      if r.0 == 0 then (abort r.1 >>= λ w'. done (r.0, mmap, w')) else done (r.0, mmap, r.1)

  -- The pointer that is stored, how it was allocated, and the world.
  unfoldable pub auto_allocate_memory : ℕ → World l → Run (ℕ × AllocatedBy × World l)
  unfolding map_pages
  auto_allocate_memory size w =
      let r = l.malloc size w.mem in
      if not (size % l.page_size == 0)
      then if not (r.0 == 0)
        then done (r.0, heap, record w { mem = l.memzero r.0 size r.1 })
        else map_pages size (record w { mem = r.1 })
      else map_pages size w

  unfoldable pub free_mmap : ℕ → ℕ → World l → Bool × World l
  free_mmap ptr size w = let r = l.munmap ptr size w.mem in (r.0, record w { mem = r.1 })

  unfoldable pub free_heap : ℕ → World l → Bool × World l
  free_heap ptr w = (true, record w { mem = l.free ptr w.mem })

  unfoldable pub auto_free_memory : ℕ → ℕ → AllocatedBy → World l → Run (Bool × World l)
  unfolding free_mmap free_heap
  auto_free_memory ptr size by w =
      if ptr == 0
      then panic
      else elim by [ mmap ↦ done (free_mmap ptr size w) | heap ↦ done (free_heap ptr w) ]

  -- The pointer that is stored, how it was allocated, and the world.
  unfoldable pub auto_reallocate_memory :
      ℕ → ℕ → ℕ → AllocatedBy → World l → Run (ℕ × AllocatedBy × World l)
  unfolding allocate_mmap auto_free_memory
  auto_reallocate_memory old old_size new_size by w =
      let copy_size = if ltb old_size new_size then old_size else new_size in
      let r = l.calloc new_size w.mem in
      let m = allocate_mmap new_size (record w { mem = r.1 }) in
      if r.0 == 0 then done (m.0, mmap, m.1) else do
        freed ← auto_free_memory old old_size by (record w { mem = l.memcpy r.0 old copy_size r.1 })
        _ ← assert freed.0
        done (r.0, heap, freed.1)
