-- ===== src/Trie.antt =====
-- hyperion/internals/atomic_pointer.rs: a new container, in a chunk of the memory manager.
pub mod Lookup
pub mod Initialized
use hyperion_rust.Common.{ℕ, ◌+◌, ◌-◌, ◌%◌, ◌≡◌}
use hyperion_rust.Simd.Lanes.{Features}
use hyperion_rust.Allocator.{Libc, World}
use hyperion_rust.Pointer.{HyperionPointer}
use hyperion_rust.Container.{Container, container_head_size, set_free_size_left}
use hyperion_rust.Core.Chunks.{Access, ArenaInner}
use hyperion_rust.Core.Allocate.{Outcome, finished, and_then, lift}
use hyperion_rust.Api.{malloc, get_pointer}

-- The head of a container that lies in memory.
pub record ContainerAccess (l : Libc) : Type 0 where
  pub load_head : ℕ → l.Mem → Container
  pub store_head : ℕ → Container → l.Mem → l.Mem
  pub load_head-store_head :
      (a : ℕ) (c : Container) (m : l.Mem) → load_head a (store_head a c m) ≡ c

abbrev pub container_size_type_0 : ℕ
container_size_type_0 = 32

module _ (l : Libc) (x : Access l) (h : ContainerAccess l) (c : Features) (dyn fuel : ℕ) where
  -- The head after both setters.
  abbrev pub initial_head : Container → Container
  initial_head head =
      set_free_size_left (record head { size = container_size_type_0 })
        (container_size_type_0 - container_head_size)

  -- What is written to the chunk at an address.
  abbrev pub write_head : ArenaInner l → ℕ → ArenaInner l
  write_head a address = record a {
    world = record (a.world) {
      mem = h.store_head address (initial_head (h.load_head address a.world.mem)) a.world.mem;
    };
  }

  unfoldable pub initialize_container : ArenaInner l → Outcome (ArenaInner l × HyperionPointer)
  initialize_container a = and_then (malloc l x c dyn fuel a container_size_type_0) (λ new.
      and_then (lift (get_pointer l x dyn new.0 new.1 1 0))
        (λ r. finished (write_head r.0 r.1, new.1)))
