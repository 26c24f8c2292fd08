-- ===== src/Core.antt =====
-- memorymanager/internals/core.rs and memorymanager/pointer/extended_hyperion_pointer.rs: the
-- sizes, the reallocation and the release of extended pointers. `DYN_INCREMENT_SIZE` is an argument.
pub mod Roundup
pub mod Extended
pub mod Buffer
pub mod Search
pub mod Chunks
pub mod Deflated
pub mod Valid
pub mod Allocate
pub mod Free
pub mod Reallocate
use hyperion_rust.Common.{
  ℕ, zero, suc, ◌+◌, ◌-◌, ◌*◌, ◌/◌, ◌%◌, ◌==◌, ltb, leb, if◌then◌else◌, Bool, true, false, not,
  Option, none, some, List, [], ◌∷◌, get_or, set,
}
use hyperion_rust.Allocator.{
  Libc, World, Run, done, panic, ◌>>=◌, AllocatedBy, mmap, heap, auto_free_memory,
  auto_reallocate_memory,
}
use hyperion_rust.Pointer.{CompressionState}

abbrev pub increment_size_ext_tight : ℕ
increment_size_ext_tight = 256

abbrev pub overallocation_capacity : ℕ
overallocation_capacity = 5120

unfoldable pub roundup : ℕ → ℕ → ℕ
roundup dyn size =
    if ltb size 8192
    then (size / increment_size_ext_tight + 1) * increment_size_ext_tight
    else if ltb size 16384
    then (size / (increment_size_ext_tight * 2) + 1) * (increment_size_ext_tight * 2)
    else (size / dyn + 1) * dyn

-- `requested_size` is an i32 and `overallocated` an i16, kept as their bits: a number with the sign
-- bit set stands for a negative one. Sums of them wrap around.
pub record ExtendedHyperionPointer : Type 0 where
  pub alloced_by : AllocatedBy
  pub compression_state : CompressionState
  pub chance2nd_realloc : ℕ
  pub chained_pointer_count : ℕ
  pub chance2nd_read : ℕ
  pub data_pointer : ℕ
  pub requested_size : ℕ
  pub overallocated : ℕ

abbrev pub as_i32 : ℕ → ℕ
as_i32 n = n % 4294967296

abbrev pub as_i16 : ℕ → ℕ
as_i16 n = n % 65536

-- The smaller of two i32.
unfoldable pub min_i32 : ℕ → ℕ → ℕ
min_i32 a b = if ltb (as_i32 (b + 2147483648)) (as_i32 (a + 2147483648)) then b else a

-- An i32 as a usize and an i16 as an i32 and as a usize: the sign is extended.
unfoldable pub i32_as_usize : ℕ → ℕ
i32_as_usize n = if ltb n 2147483648 then n else n + 18446744069414584320

unfoldable pub i16_as_i32 : ℕ → ℕ
i16_as_i32 n = if ltb n 32768 then n else n + 4294901760

unfoldable pub i16_as_usize : ℕ → ℕ
i16_as_usize n = if ltb n 32768 then n else n + 18446744073709486080

unfoldable pub alloc_size : ExtendedHyperionPointer → ℕ
alloc_size e = i32_as_usize (as_i32 (e.requested_size + i16_as_i32 e.overallocated))

abbrev pub has_data : ExtendedHyperionPointer → Bool
has_data e = not (e.data_pointer == 0)

-- The arguments stand in the order of the source: the two chances, the state, the count.
abbrev pub set_flags :
    ExtendedHyperionPointer → ℕ → ℕ → ℕ → ℕ → CompressionState → ℕ → ExtendedHyperionPointer
set_flags e requested over c2r c2reall state chained = record e {
  requested_size = requested;
  overallocated = over;
  compression_state = state;
  chance2nd_read = c2r;
  chance2nd_realloc = c2reall;
  chained_pointer_count = chained;
}

-- The loop from an offset down to 0: the offset of the first pointer that has data. `none` is the
-- place before the first pointer, to which the loop steps if none has.
pub chained_offset : List ExtendedHyperionPointer → ExtendedHyperionPointer → ℕ → Option ℕ
chained_offset ps d zero = if has_data (get_or ps 0 d) then some 0 else none
chained_offset ps d (suc offset) =
    let rest = chained_offset ps d offset in
    if has_data (get_or ps (suc offset) d) then some (suc offset) else rest

-- Which of the 8 chained pointers serves a key that starts with the character. `d` stands for
-- what is past the end.
unfoldable pub get_chained_pointer :
    List ExtendedHyperionPointer → ExtendedHyperionPointer → ℕ → Option ℕ
get_chained_pointer ps d needed_character = chained_offset ps d (needed_character / 32)

module _ (l : Libc) where
  -- `clear_data`: releases the memory and stores the null pointer.
  unfoldable pub clear_data :
      ExtendedHyperionPointer → World l → Run (ExtendedHyperionPointer × World l)
  clear_data e w = do
    freed ← auto_free_memory l e.data_pointer (alloc_size e) e.alloced_by w
    done (record e { data_pointer = 0 }, freed.1)

  -- The part of `free_chunks_normal` that releases an extended pointer's memory.
  unfoldable pub free_extended :
      ExtendedHyperionPointer → World l → Run (ExtendedHyperionPointer × World l)
  free_extended e w = do
    freed ← auto_free_memory l e.data_pointer (alloc_size e) e.alloced_by w
    clear_data e freed.1

  -- Moves the data to a new allocation and sets what is overallocated.
  unfoldable pub move_data :
      ExtendedHyperionPointer → ℕ → ℕ → World l → Run (ExtendedHyperionPointer × World l)
  move_data e new_size over w = do
    r ← auto_reallocate_memory l e.data_pointer (alloc_size e) new_size e.alloced_by w
    done (record e { data_pointer = r.0; alloced_by = r.1; overallocated = over }, r.2)

  -- The accounting of `reallocate_extended` before it stores the size.
  unfoldable pub resize :
      ℕ → ExtendedHyperionPointer → ℕ → World l → Run (ExtendedHyperionPointer × World l)
  resize dyn e size w =
      let requested = i32_as_usize e.requested_size in
      let over = i16_as_usize e.overallocated in
      if ltb requested size
      then if leb size ((requested + over) % 18446744073709551616)
        then done (
          record e {
            overallocated = as_i16 (e.overallocated + (65536 - as_i16 (size - requested)));
          },
          w,
        )
        else move_data e (roundup dyn size) (as_i16 (roundup dyn size - size)) w
      else if ltb ((over + (requested - size)) % 18446744073709551616) overallocation_capacity
      then done
          (record e { overallocated = as_i16 (e.overallocated + as_i16 (requested - size)) }, w)
      else move_data e (roundup dyn size) 0 w

  -- `reallocate_extended` on the extended pointer that it found.
  unfoldable pub reallocate_extended :
      ℕ → ExtendedHyperionPointer → ℕ → World l → Run (ExtendedHyperionPointer × World l)
  reallocate_extended dyn e size w = do
    r ← resize dyn e size w
    done (record (r.0) { requested_size = as_i32 size; chance2nd_realloc = 0 }, r.1)
