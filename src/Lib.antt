-- ===== src/Lib.antt =====
-- A model of Hyperion in Rust: the memory manager of src/memorymanager, and the nodes and containers
-- of the trie in src/hyperion.
--
-- The parts and the files that model them. A function keeps its name; what it changes through `&mut`
-- is an argument and a part of the result.
--
--   Common          numbers, lists indexed by numbers, bits
--   Simd            src/memorymanager/internals/simd_common.rs, simd_avx2.rs, simd_sse4_1.rs
--   Mask            the masks of bins and metabins: arrays of 32-bit words, 1 for a free unit
--   Allocator       src/memorymanager/internals/allocator.rs
--   Pointer         src/memorymanager/pointer/hyperion_pointer.rs, atomic_memory_pointer.rs; its
--                   packed bytes in Pointer/Packed
--   Bin             src/memorymanager/components/bin.rs
--   Metabin         src/memorymanager/components/metabin.rs
--   PointerArray    src/memorymanager/pointer/pointer_array.rs
--   Superbin        src/memorymanager/components/superbin.rs
--   Arena           src/memorymanager/components/arena.rs, internals/compression.rs
--   Core            src/memorymanager/internals/core.rs, pointer/extended_hyperion_pointer.rs
--   Teardown        the release of memory, from bin.rs up to arena.rs
--   Compression     src/memorymanager/internals/compression.rs
--   Api             src/memorymanager/api.rs; Api/Startup: how the arenas are made
--   Codes           the enums of node.rs, sub_node.rs, context.rs, key_preprocessor.rs
--   NodeHeader      src/hyperion/components/node_header.rs, top_node.rs, sub_node.rs, node.rs
--   Container       src/hyperion/components/container.rs, jump_table.rs
--   Configuration   src/hyperion/internals/core.rs
--   Contexts        src/hyperion/components/context.rs
--   Trie            src/hyperion/internals/atomic_pointer.rs, initialize_container
--   Preprocessor    src/hyperion/preprocessor/key_preprocessor.rs
--   Tests           concrete data, and one use of each theorem with hypotheses
--
-- An arena has 64 superbins, one for each size of chunk. A superbin has metabins and a ring of 16
-- of their ids, the first of which is tried next; a metabin has 256 bins and a bin 4096 chunks.
-- Each level keeps a mask of what is free, and searches it with the functions of Simd.
--
-- An operation of the API holds the lock of its arena from start to end, and is a function from the
-- arena's state to its state. It finds the superbin, metabin, bin and chunk that a pointer names
-- (Core.Chunks), searches for a free chunk (Core.Search), and fills, frees or moves it. The arenas
-- that sequences of operations lead to are those of `Step` in Api/Reachable: all operations of the
-- API, `initialize` only while every superbin of the arena has one metabin, and any change of the
-- memory between them.
--
-- Memory is the list of its bytes where the searches read it, and a function from offsets to bytes
-- where nodes do; elsewhere it is the `Mem` of the C library, which is a parameter (`Libc`), as are
-- the generated bitfields of a node's header (`Bitfields`, with what the crate documents). How an
-- extended pointer or a container's head is read from memory and written to it is a parameter too
-- (`Access`, `ContainerAccess`), of which a load gives what was stored last at its address. The
-- processor's features are an argument. An address is a number, 0 the null pointer. Integers are
-- natural numbers, with the wrap-around of the source's width written out where it can happen, as in
-- the release build; the i32 and the i16 of an extended pointer are kept as their bits, and the
-- theorems on sizes hold below 2^31 - 8192, where none of its sums overflows. A panic is a value (`Run`, `Outcome`, an `Option`). An array that is read out of range gives a
-- default; the theorems fix the lengths. The build is the default one, without the features
-- `compression` and `migration`; the functions that only they call are modelled apart.
--
-- `allocate_bin` of a metabin calls itself after it has locked a bin; in the model it takes a number
-- of rounds, and one more than there are set bits is enough. `allocate_bin` of core.rs calls itself
-- after it has updated the ring; it takes rounds too. 18 are enough in a valid superbin with fewer than
-- 16 metabins, for the ring has 16 ids, and no number is once 16 metabins are full. `register_chained_memory` searches down from
-- an entry with no bound, on fuel, of which an entry with data needs one. The loops over arrays take
-- their length.
--
-- Not modelled: the waiting for locks, what `todo!()` stands for in compression.rs, the system's
-- statistics (floating point), the probes for compression, and casts of references.
pub mod Common
pub mod Simd
pub mod Mask
pub mod Allocator
pub mod Pointer
pub mod Bin
pub mod Metabin
pub mod PointerArray
pub mod Superbin
pub mod Codes
pub mod Core
pub mod Teardown
pub mod Compression
pub mod Arena
pub mod NodeHeader
pub mod Preprocessor
pub mod Container
pub mod Tests
pub mod Api
pub mod Configuration
pub mod Contexts
pub mod Trie
