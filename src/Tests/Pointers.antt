-- ===== src/Tests/Pointers.antt =====
-- A header packed from the most significant bit on, and the use of the theorem on the packed pointer.
use hyperion_rust.Common.{◌+◌, ◌*◌, ◌/◌, ◌%◌, arith}
use hyperion_rust.Pointer
use hyperion_rust.Pointer.{default_pointer}
use hyperion_rust.Pointer.Packed.{
  HyperionPointerHeader, Memory, set_superbin_id, set_metabin_id, set_bin_id, set_chunk_id, default,
  pointer_at,
}
use hyperion_rust.Pointer.Packed.Laws.{Replaces, pointer_at-Replaces}

msb_first : HyperionPointerHeader
msb_first = record {
  new = 0;
  superbin_id = λ k. k / 67108864;
  metabin_id = λ k. k / 4096 % 16384;
  chunk_id = λ k. k % 4096;
  set_superbin_id = λ k v. v * 67108864 + k % 67108864;
  set_metabin_id = λ k v. k / 67108864 * 67108864 + v * 4096 + k % 4096;
  set_chunk_id = λ k v. k / 4096 * 4096 + v;
  new_lem = (omega arith, omega arith, omega arith, omega arith);
  set_superbin_id_lem = λ k v h few. (omega arith, omega arith, omega arith, omega arith);
  set_metabin_id_lem = λ k v h few. (omega arith, omega arith, omega arith, omega arith);
  set_chunk_id_lem = λ k v h few. (omega arith, omega arith, omega arith, omega arith);
}

abbrev bytes : Memory
bytes = λ i. i % 256

pointer_at-Replaces_example :
    Replaces msb_first 100 bytes
      (set_superbin_id msb_first 100 12 bytes)
      (Pointer.set_superbin_id (pointer_at msb_first 100 bytes) 12)
    × Replaces msb_first 100 bytes
        (set_metabin_id msb_first 100 13 bytes)
        (Pointer.set_metabin_id (pointer_at msb_first 100 bytes) 13)
    × Replaces msb_first 100 bytes
        (set_bin_id msb_first 100 14 bytes)
        (Pointer.set_bin_id (pointer_at msb_first 100 bytes) 14)
    × Replaces msb_first 100 bytes
        (set_chunk_id msb_first 100 15 bytes)
        (Pointer.set_chunk_id (pointer_at msb_first 100 bytes) 15)
    × Replaces msb_first 100 bytes (default msb_first 100 bytes) default_pointer
pointer_at-Replaces_example =
    pointer_at-Replaces msb_first 100 12 13 14 15 bytes (λ i. omega arith) (omega arith)
      (omega arith) (omega arith) (omega arith)
