-- ===== src/Tests/Arenas.antt =====
-- An arena with a store of extended pointers, and one use of each theorem on arenas.
use hyperion_rust.Common.{
  ℕ, ◌+◌, ◌*◌, ◌≡◌, inr, refl, [], ◌∷◌, true, false, arith, replicate, some, none, ◌==◌,
  if◌then◌else◌, Bool,
}
use hyperion_rust.Common.Lists.{All-replicate}
use hyperion_rust.Mask.{IsWord}
use hyperion_rust.Allocator.{Libc, World, done, panic, AllocatedBy}
use hyperion_rust.Pointer.{HyperionPointer, default_pointer, CompressionState}
use hyperion_rust.Bin.{default_bin}
use hyperion_rust.Metabin.{Metabin, default_metabin}
use hyperion_rust.Metabin.Allocate.{IsMask}
use hyperion_rust.Superbin.{Superbin, new_superbin}
use hyperion_rust.Core.{ExtendedHyperionPointer, alloc_size}
use hyperion_rust.Core.Buffer.{IsReliable, IsBuffer, Steps, reallocate_all, reallocate_all-Steps}
use hyperion_rust.Core.Search.{Search}
use hyperion_rust.Core.Search.Ends.{HasRoom}
use hyperion_rust.Core.Chunks.{Access, ArenaInner, read_extended}
use hyperion_rust.Core.Allocate.{finished}
use hyperion_rust.Compression.{perform_bin_deflation}
use hyperion_rust.Compression.Deflation.{perform_bin_deflation_panics}
use hyperion_rust.Api.{register_chained_memory, get_chained_pointer, get_all_chained_pointer}
use hyperion_rust.Api.Chained.{
  AllAre, get_chained_pointer-register_chained_memory, get_all_chained_pointer-AllAre,
}
use hyperion_rust.Container.{Container}
use hyperion_rust.Trie.{ContainerAccess}

-- The extended pointer and the head of a container at every address, and the next free address.
abbrev pub Store : Type 0
Store = (ℕ → ExtendedHyperionPointer) × (ℕ → Container) × ℕ

-- It never fails.
abbrev pub shelf : Libc
shelf = record {
  Mem = Store;
  page_size = 4096;
  malloc = λ n m. (m.2 + 16, (m.0, m.1, m.2 + 16 + n));
  calloc = λ n m. (m.2 + 16, (m.0, m.1, m.2 + 16 + n));
  mmap = λ n m. (some (m.2 + 16), (m.0, m.1, m.2 + 16 + n));
  munmap = λ p n m. (true, m);
  free = λ p m. m;
  memzero = λ p n m. m;
  memcpy = λ d s n m. m;
}

pub same_address : (a : ℕ) → (a == a) ≡ true
same_address a = ground arith

abbrev pub shelf_access : Access shelf
shelf_access = record {
  load = λ a m. m.0 a;
  store = λ a e m. ((λ b. if b == a then e else m.0 b), m.1, m.2);
  load_u16 = λ a m. 0;
  store_u16 = λ a v m. m;
  load-store = λ a e m. rw (same_address a) refl;
}

pub shelf_containers : ContainerAccess shelf
shelf_containers = record {
  load_head = λ a m. m.1 a;
  store_head = λ a e m. (m.0, (λ b. if b == a then e else m.1 b), m.2);
  load_head-store_head = λ a e m. rw (same_address a) refl;
}

-- 3000 bytes of 3072 are used, at the address 16, by the first of 8 chained pointers.
abbrev pub head : ExtendedHyperionPointer
head = record {
  alloced_by = AllocatedBy.heap;
  compression_state = CompressionState.uncompressed;
  chance2nd_realloc = 0;
  chained_pointer_count = 8;
  chance2nd_read = 0;
  data_pointer = 16;
  requested_size = 3000;
  overallocated = 72;
}

abbrev pub no_container : Container
no_container = record { size = 0; free_bytes = 0; jump_table = 0; split_delay = 0 }

abbrev pub new_world : World shelf
new_world = record {
  mem = ((λ a. head), (λ a. no_container), 100000);
  aborted = false;
  pseudorand = 0;
}

abbrev usable : Metabin
usable = record default_metabin { bin_usage_mask = replicate 8 255 }

usable-IsMask : IsMask usable.bin_usage_mask
usable-IsMask = record { size = refl; words = All-replicate IsWord 8 255 (omega arith) }

abbrev young : Superbin
young = record new_superbin {
  header = record (new_superbin.header) { metabins_initialized = 1; size_of_bin = 16 };
  metabins = some usable ∷ replicate 15 none;
}

young-HasRoom : HasRoom young
young-HasRoom = record { room = omega arith; newest = refl; few = omega arith; ring = omega arith }

abbrev searching : Search shelf
searching = record { superbin = young; pointer = default_pointer; world = new_world }

-- Superbin 0 serves large sizes, superbin 1 chunks of 32 bytes.
abbrev arena : ArenaInner shelf
arena = record {
  compression_cache = 0;
  compression_iterator = 1;
  superbins =
      young
      ∷ record young { header = record (young.header) { superbin_id = 1; size_of_bin = 32 } }
      ∷ [];
  world = new_world;
}

pub increment : 4096 ≡ ◌*◌ 16 256
increment = refl

-- Chunk 5 of bin 2.
abbrev pub chunk : HyperionPointer
chunk = record { superbin_id = 1; metabin_id = 0; bin_id = 2; chunk_id = 5 }

perform_bin_deflation_panics_example : perform_bin_deflation shelf default_bin 32 new_world ≡ panic
perform_bin_deflation_panics_example =
    perform_bin_deflation_panics shelf default_bin 32 refl new_world

shelf-IsReliable : IsReliable shelf
shelf-IsReliable = record { calloc_gives = λ n m. omega arith; munmap_works = λ p n m. refl }

-- 3050 bytes fit, 20000 do not, and 100 leave too much unused.
reallocate_all-Steps_example :
    (e' : ExtendedHyperionPointer) × (w' : World shelf) × (reallocate_all shelf 4096 head
        (3050 ∷ 20000 ∷ 100 ∷ [])
        new_world
      ≡ done (e', w'))
    × IsBuffer e'
    × Steps (alloc_size head) (3050 ∷ 20000 ∷ 100 ∷ []) (alloc_size e')
reallocate_all-Steps_example =
    reallocate_all-Steps shelf shelf-IsReliable 4096 16 increment (omega arith) (omega arith)
      (3050 ∷ 20000 ∷ 100 ∷ []) head new_world
      (record { there = omega arith; small = omega arith; few_unused = omega arith })
      (omega arith, (omega arith, (omega arith, tt)))

-- A pointer to the first entries of an empty bin.
abbrev pub chain : HyperionPointer
chain = record { superbin_id = 0; metabin_id = 0; bin_id = 2; chunk_id = 5 }

-- The characters 70 and 80 start with the same 3 bits.
get_chained_pointer-register_chained_memory_example :
    (a' : ArenaInner shelf) × (register_chained_memory shelf shelf_access 1 arena chain 70 777 100
        false 0
      ≡ finished a')
    × ((init : Bool) (n : ℕ)
        → get_chained_pointer shelf shelf_access 4096 a' chain 80 init n
          ≡ done ((read_extended shelf shelf_access a' 112).0, 777))
get_chained_pointer-register_chained_memory_example =
    get_chained_pointer-register_chained_memory shelf shelf_access 4096 arena chain default_bin 70
      80 777 100 0 0 false refl (omega arith) refl (omega arith) (inr refl)

get_all_chained_pointer-AllAre_example : AllAre shelf shelf_access 16 8 (
    get_all_chained_pointer shelf shelf_access
      (record { chars = replicate 8 0; pointer = replicate 8 0 })
      arena
      chain)
get_all_chained_pointer-AllAre_example =
    get_all_chained_pointer-AllAre shelf shelf_access 80 16 (omega arith)
      (record { chars = replicate 8 0; pointer = replicate 8 0 }) arena chain default_bin refl refl
      (omega arith) refl (omega arith) (omega arith)
