-- ===== src/Pointer/Atomic.antt =====
-- memorymanager/pointer/atomic_memory_pointer.rs and hyperion/internals/atomic_pointer.rs: a cell
-- that holds an address. The threads of an arena take turns by its lock, so that a load gives what
-- was stored last.
use hyperion_rust.Common.{ℕ, ◌+◌, ◌*◌, ◌==◌, Bool, not, Option, none, some, if◌then◌else◌}

pub record AtomicMemoryPointer : Type 0 where
  pub ptr : ℕ

abbrev pub clone : AtomicMemoryPointer → AtomicMemoryPointer
clone p = record { ptr = p.ptr }

abbrev pub clone_from : AtomicMemoryPointer → AtomicMemoryPointer → AtomicMemoryPointer
clone_from p source = record p { ptr = source.ptr }

abbrev pub new : AtomicMemoryPointer
new = record { ptr = 0 }

abbrev pub get : AtomicMemoryPointer → ℕ
get p = p.ptr

abbrev pub store : AtomicMemoryPointer → ℕ → AtomicMemoryPointer
store p address = record p { ptr = address }

abbrev pub is_null : AtomicMemoryPointer → Bool
is_null p = p.ptr == 0

abbrev pub is_notnull : AtomicMemoryPointer → Bool
is_notnull p = not (is_null p)

abbrev pub add_get : AtomicMemoryPointer → ℕ → ℕ
add_get p offset = get p + offset

abbrev pub clear : AtomicMemoryPointer → AtomicMemoryPointer
clear p = store p 0

-- `AtomicPointer<T>`, whose offsets count in `T`.
pub record AtomicPointer : Type 0 where
  pub address : ℕ
  pub size_of : ℕ

abbrev pub null_pointer : ℕ → AtomicPointer
null_pointer size = record { address = 0; size_of = size }

abbrev pub new_from_pointer : ℕ → ℕ → AtomicPointer
new_from_pointer size ptr = record { address = ptr; size_of = size }

abbrev pub store_pointer : AtomicPointer → ℕ → AtomicPointer
store_pointer p ptr = record p { address = ptr }

abbrev pub is_null_pointer : AtomicPointer → Bool
is_null_pointer p = p.address == 0

abbrev pub add_get_pointer : AtomicPointer → ℕ → ℕ
add_get_pointer p offset = p.address + offset * p.size_of

abbrev pub clear_pointer : AtomicPointer → AtomicPointer
clear_pointer p = store_pointer p 0

abbrev pub clone_pointer : AtomicPointer → AtomicPointer
clone_pointer p = record { address = p.address; size_of = p.size_of }

abbrev pub get_pointer : AtomicPointer → ℕ
get_pointer p = p.address

abbrev pub is_notnull_pointer : AtomicPointer → Bool
is_notnull_pointer p = not (is_null_pointer p)

abbrev pub get_as_mut_memory : AtomicPointer → ℕ
get_as_mut_memory p = get_pointer p

-- The address that is dereferenced; `none` is the panic on the null pointer.
abbrev pub borrow_mut : AtomicPointer → Option ℕ
borrow_mut p = if is_null_pointer p then none else some (get_pointer p)
