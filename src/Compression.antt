-- ===== src/Compression.antt =====
-- memorymanager/internals/compression.rs: the choice of a strategy and the deflation of bins. What
-- the source leaves as `todo!()` panics.
pub mod Deflation
use hyperion_rust.Common.{
  ℕ, zero, suc, ◌+◌, ◌-◌, ◌*◌, ◌/◌, ◌%◌, ◌^◌, ◌==◌, ltb, if◌then◌else◌, Bool, true, false, not,
  Option, none, some, List, [], ◌∷◌, replicate, set, get_elem?, bit_and,
}
use hyperion_rust.Allocator.{
  Libc, World, Run, done, panic, ◌>>=◌, auto_allocate_memory, auto_free_memory,
}
use hyperion_rust.Pointer.{CompressionState, uncompressed, deflate, compression_into_bits}
use hyperion_rust.Bin.{Bin, set_chance2nd_alloc}
use hyperion_rust.Metabin.{Metabin, bin_of, put_bin}
use hyperion_rust.Superbin.{Superbin, get_datablock_size}
use hyperion_rust.Core.Chunks.{Access}
use hyperion_rust.Teardown.{teardown_if_unused, bin_elements, bin_elements_deflated}

pub data CompressionStrategy : Type 0 where
  no_compression deflation lz4_0 lz4_1 zstd : CompressionStrategy

-- From whether the share of memory in use is above so many tenths.
unfoldable pub get_compression_strategy : (ℕ → Bool) → CompressionStrategy
get_compression_strategy is_above =
    if is_above 9
    then zstd
    else if is_above 8
    then lz4_1
    else if is_above 7
    then lz4_0
    else if is_above 6
    then deflation
    else no_compression

-- Two u16 to each word of the mask.
pub pack : List ℕ → List ℕ
pack [] = []
pack (a ∷ []) = a ∷ []
pack (a ∷ b ∷ rest) = (a + 65536 * b) ∷ pack rest

-- What the loop of `perform_bin_deflation` keeps: how many chunks were copied, their ids, the world.
pub record Copied (l : Libc) : Type 0 where
  pub nci_iterator : ℕ
  pub nci : List ℕ
  pub world : World l

module _ (l : Libc) where
  -- `pdb_copy_chunk`, which panics past the end of the ids.
  unfoldable pub pdb_copy_chunk : Bin → ℕ → ℕ → ℕ → Copied l → Run (Copied l)
  pdb_copy_chunk b size index target k =
      if ltb k.nci_iterator bin_elements_deflated
      then done (record {
        nci_iterator = k.nci_iterator + 1;
        nci = set k.nci k.nci_iterator (index % 65536);
        world = record (k.world) {
          mem =
              l.memcpy (target + size * k.nci_iterator) (b.chunks + size * index) size k.world.mem;
        };
      })
      else panic

  -- The loop over the chunks, from `i` on with `n` left. The word `i / 8` may be out of bounds.
  pub copy_chunks : Bin → ℕ → ℕ → ℕ → ℕ → Copied l → Run (Copied l)
  copy_chunks b size target zero i k = done k
  copy_chunks b size target (suc n) i k = elim (get_elem? b.chunk_usage_mask (i / 8)) [
    | none ↦ panic
    | some word ↦ elim (bit_and word (2 ^ (i % 8)) == 0) [
      | true ↦ pdb_copy_chunk b size i target k >>= copy_chunks b size target n (i + 1)
      | false ↦ copy_chunks b size target n (i + 1) k
    ]
  ]

  unfoldable pub perform_bin_deflation : Bin → ℕ → World l → Run (Bin × World l)
  unfolding copy_chunks pack
  perform_bin_deflation b size w =
      auto_allocate_memory l (size * bin_elements_deflated) w >>= λ new.
      let zeroed = record (new.2) {
        mem = l.memzero new.0 (size * bin_elements_deflated) new.2.mem;
      } in
      copy_chunks b size new.0 bin_elements 0
        (record { nci_iterator = 0; nci = replicate bin_elements_deflated 65535; world = zeroed })
      >>= λ k.
          auto_free_memory l b.chunks (bin_elements * size) b.header.allocated_by k.world
          >>= λ freed. done (
            record b {
              header = record (b.header) { allocated_by = new.1; compression_state = deflate };
              chunks = new.0;
              chunk_usage_mask = pack k.nci;
            },
            freed.1,
          )

module _ (l : Libc) (x : Access l) where
  -- One bin of `deflate_bin`.
  unfoldable pub deflate_one : ℕ → Bin → World l → Run (Bin × World l)
  deflate_one size b w =
      if compression_into_bits b.header.compression_state == 0
      then (teardown_if_unused l x b size w >>= λ r.
          if not r.0 then perform_bin_deflation l b size r.1 else done (b, r.1))
      else done (set_chance2nd_alloc 1 b, w)

  -- `for i in (0..255).rev()`, with the bins below `n` left: bin 255 is never looked at.
  pub deflate_bins : ℕ → ℕ → Metabin → World l → Run (Metabin × World l)
  deflate_bins zero size m w = done (m, w)
  deflate_bins (suc n) size m w =
      deflate_one size (bin_of m n) w >>= λ r. deflate_bins n size (put_bin m n r.0) r.1

  unfoldable pub deflate_bin : Superbin → Metabin → World l → Run (Metabin × World l)
  unfolding deflate_bins
  deflate_bin s m w = deflate_bins 255 (get_datablock_size s) m w

-- `todo!()`, which panics, also behind the step of the iterator that `perform_arena_deflation` takes.
abbrev pub perform_arena_deflation : Run Bool
perform_arena_deflation = panic

abbrev pub perform_arena_compression : CompressionStrategy → Run Bool
perform_arena_compression strategy = panic

abbrev pub decompress_bin : Bin → Run Bin
decompress_bin b = panic

-- From whether the share of memory in use is above so many tenths.
unfoldable pub compress_arena : (ℕ → Bool) → Run Bool
compress_arena is_above = elim (get_compression_strategy is_above) [
  | no_compression ↦ done false
  | deflation ↦ perform_arena_deflation
  | lz4_0 ↦ perform_arena_compression lz4_0
  | lz4_1 ↦ perform_arena_compression lz4_1
  | zstd ↦ perform_arena_compression zstd
]
