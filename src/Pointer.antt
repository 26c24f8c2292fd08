-- ===== src/Pointer.antt =====
-- memorymanager/pointer/hyperion_pointer.rs, extended_hyperion_pointer.rs and the enum of
-- memorymanager/internals/compression.rs. A field of a `bitfield` header is a number; the crate
-- packs it into the bits that its attribute declares.
pub mod Atomic
pub mod Packed
use hyperion_rust.Common.{ℕ, zero, suc, ◌==◌, Bool, Option, none, some}

pub record HyperionPointer : Type 0 where
  pub superbin_id : ℕ
  pub metabin_id : ℕ
  pub bin_id : ℕ
  pub chunk_id : ℕ

abbrev pub default_pointer : HyperionPointer
default_pointer = record { superbin_id = 0; metabin_id = 0; bin_id = 0; chunk_id = 0 }

abbrev pub set_superbin_id : HyperionPointer → ℕ → HyperionPointer
set_superbin_id p v = record p { superbin_id = v }

abbrev pub set_metabin_id : HyperionPointer → ℕ → HyperionPointer
set_metabin_id p v = record p { metabin_id = v }

abbrev pub set_bin_id : HyperionPointer → ℕ → HyperionPointer
set_bin_id p v = record p { bin_id = v }

abbrev pub set_chunk_id : HyperionPointer → ℕ → HyperionPointer
set_chunk_id p v = record p { chunk_id = v }

abbrev pub with_superbin_id : HyperionPointer → ℕ → HyperionPointer
with_superbin_id p v = set_superbin_id p v

abbrev pub with_metabin_id : HyperionPointer → ℕ → HyperionPointer
with_metabin_id p v = set_metabin_id p v

abbrev pub with_bin_id : HyperionPointer → ℕ → HyperionPointer
with_bin_id p v = set_bin_id p v

abbrev pub with_chunk_id : HyperionPointer → ℕ → HyperionPointer
with_chunk_id p v = set_chunk_id p v

abbrev pub is_extended_pointer : HyperionPointer → Bool
is_extended_pointer p = p.superbin_id == 0

pub data CompressionState : Type 0 where
  uncompressed deflate lz4 zstd : CompressionState

abbrev pub compression_into_bits : CompressionState → ℕ
compression_into_bits uncompressed = 0
compression_into_bits deflate = 1
compression_into_bits lz4 = 2
compression_into_bits zstd = 3

-- `none` is the panic on an undefined value.
abbrev pub compression_from_bits : ℕ → Option CompressionState
compression_from_bits zero = some uncompressed
compression_from_bits (suc zero) = some deflate
compression_from_bits (suc (suc zero)) = some lz4
compression_from_bits (suc (suc (suc zero))) = some zstd
compression_from_bits (suc (suc (suc (suc n)))) = none

abbrev pub is_deflate : CompressionState → Bool
is_deflate s = compression_into_bits s == 1
