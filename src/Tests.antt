-- ===== src/Tests.antt =====
-- Concrete data and runs: a processor, a C library, masks and nodes, and one use of each theorem
-- with hypotheses.
pub mod Vectors
pub mod Bins
pub mod Metabins
pub mod Nodes
pub mod Search
pub mod Arenas
pub mod Pointers
pub mod Reachable
use hyperion_rust.Common.{ℕ, ◌+◌, Bool, true, false, Option, some, List, [], ◌∷◌, replicate}
use hyperion_rust.Simd.Lanes.{Features}
use hyperion_rust.Allocator.{Libc, World}
use hyperion_rust.Pointer.{HyperionPointer, default_pointer}
use hyperion_rust.Bin.{Bin, default_bin}

abbrev pub sse_only : Features
sse_only = record { avx2 = false; sse41 = true }

-- A library whose memory is the next free address; it never fails.
abbrev pub bump : Libc
bump = record {
  Mem = ℕ;
  page_size = 4096;
  malloc = λ n m. (m + 16, m + 16 + n);
  calloc = λ n m. (m + 16, m + 16 + n);
  mmap = λ n m. (some (m + 16), m + 16 + n);
  munmap = λ p n m. (true, m);
  free = λ p m. m;
  memzero = λ p n m. m;
  memcpy = λ d s n m. m;
}

abbrev pub fresh : World bump
fresh = record { mem = 0; aborted = false; pseudorand = 0 }

-- Byte 1 is 8, the others are 0: bit 11 is the only one.
abbrev pub block : List ℕ
block = 0 ∷ 8 ∷ replicate 30 0

abbrev pub mask_512 : List ℕ
mask_512 = 0 ∷ 8 ∷ replicate 510 0

-- Chunk 3 is the only free one.
abbrev pub one_free : Bin
one_free = record default_bin { chunk_usage_mask = 8 ∷ replicate 127 0 }
