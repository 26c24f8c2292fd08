-- ===== src/Core/Deflated.antt =====
-- core.rs: what `get_chunk_pointer` does with the feature `compression`.
use hyperion_rust.Common.{◌==◌, if◌then◌else◌, ℕ, zero, suc, ◌+◌, ◌*◌, List, [], ◌∷◌, get_or}
use hyperion_rust.Simd.Lanes.{minus_one, at}
use hyperion_rust.Simd.Lane16.{index_a_in_b_256}
use hyperion_rust.Allocator.{Libc, World, Run, done, ◌>>=◌}
use hyperion_rust.Pointer.{HyperionPointer, uncompressed, deflate, lz4, zstd, compression_into_bits}
use hyperion_rust.Compression.{decompress_bin}
use hyperion_rust.Bin.{Bin}
use hyperion_rust.Core.Chunks.{Access, ArenaInner, get_superbin_ref, get_bin_ref, get_offset}

module _ (l : Libc) (x : Access l) where
  -- `n` 16-bit words from an address on.
  pub words_at : ℕ → ℕ → World l → List ℕ
  words_at zero address w = []
  words_at (suc n) address w = x.load_u16 address w.mem ∷ words_at n (address + 2) w

  -- The loop with `n` rounds left: each takes a word of the mask for the address of 16 ids. The
  -- address of the chunk, 0 if no round finds the id.
  pub find_deflated : ℕ → ℕ → ℕ → Bin → ℕ → ℕ → World l → ℕ
  find_deflated zero i full_index b size id w = 0
  find_deflated (suc n) i full_index b size id w =
      let rest = find_deflated n (i + 1) (full_index + 16) b size id w in
      elim (index_a_in_b_256 id (words_at 16 (get_or b.chunk_usage_mask (i * 8) 0) w)) [
        | minus_one ↦ rest
        | at index ↦ b.chunks + size * (index + full_index)
      ]

  unfoldable pub get_chunk_pointer_deflated : ArenaInner l → HyperionPointer → Run ℕ
  unfolding words_at find_deflated
  get_chunk_pointer_deflated a p = get_bin_ref l a p >>= λ b.
      done (find_deflated 16 0 0 b (get_superbin_ref l a p).header.size_of_bin p.chunk_id a.world)

  abbrev after_decompression : ArenaInner l → HyperionPointer → Bin → Run ℕ
  after_decompression a p b = decompress_bin b >>= λ b'.
      if compression_into_bits b'.header.compression_state == 0
      then get_offset l a p
      else get_chunk_pointer_deflated a p

  -- `get_chunk_pointer` with the feature: after `decompress_bin`, which is `todo!()`, the state is
  -- looked at again.
  unfoldable pub get_chunk_pointer_compressed : ArenaInner l → HyperionPointer → Run ℕ
  get_chunk_pointer_compressed a p = get_bin_ref l a p >>= λ b. elim b.header.compression_state [
    | uncompressed ↦ get_offset l a p
    | deflate ↦ get_chunk_pointer_deflated a p
    | lz4 ↦ after_decompression a p b
    | zstd ↦ after_decompression a p b
  ]
