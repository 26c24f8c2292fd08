-- ===== src/Pointer/Packed.antt =====
-- memorymanager/pointer/hyperion_pointer.rs: the five bytes of a pointer, on the targets that read
-- and write unaligned values at once (x86 and ARM, 32 and 64 bits, in little-endian order).
pub mod Laws
use hyperion_rust.Common.{
  ℕ, zero, suc, ◌+◌, ◌-◌, ◌*◌, ◌/◌, ◌%◌, ◌<◌, ◌≡◌, List, [], ◌∷◌, leb, ltb, if◌then◌else◌, get_or,
  length, ◌^◌, Bool, ◌==◌,
}
use hyperion_rust.Pointer.{HyperionPointer}

-- The byte at each address.
abbrev pub Memory : Type 0
Memory = ℕ → ℕ

-- The bytes of a value of a type, least significant first, and back.
pub record Layout (A : Type 0) : Type 0 where
  pub size : ℕ
  pub from_bytes : Memory → A
  pub to_byte : A → ℕ → ℕ

-- Addresses from the first one on.
abbrev pub offset : ℕ → Memory → Memory
offset addr mem = λ i. mem (addr + i)

pub read : {A : Type 0} → Layout A → ℕ → Memory → A
read L addr mem = L.from_bytes (offset addr mem)

pub write : {A : Type 0} → Layout A → ℕ → A → Memory → Memory
write L addr value mem = λ i.
    if leb addr i
    then (if ltb i (addr + L.size) then L.to_byte value (i - addr) else mem i)
    else mem i

abbrev pub u8_layout : Layout ℕ
u8_layout = record { size = 1; from_bytes = λ m. m 0; to_byte = λ v i. v }

unfoldable pub byte_of : ℕ → ℕ → ℕ
byte_of v zero = v % 256
byte_of v (suc zero) = v / 256 % 256
byte_of v (suc (suc zero)) = v / 65536 % 256
byte_of v (suc (suc (suc i))) = v / 16777216 % 256

-- A u32; a header is one.
abbrev pub u32_layout : Layout ℕ
u32_layout = record {
  size = 4;
  from_bytes = λ m. m 0 + 256 * m 1 + 65536 * m 2 + 16777216 * m 3;
  to_byte = byte_of;
}

-- What the `bitfield` crate generates for `HyperionPointerHeader`, and its documented behaviour: a
-- field gives what was set, if that fits, and the others are left alone.
pub record HyperionPointerHeader : Type 0 where
  pub new : ℕ
  pub superbin_id : ℕ → ℕ
  pub metabin_id : ℕ → ℕ
  pub chunk_id : ℕ → ℕ
  pub set_superbin_id : ℕ → ℕ → ℕ
  pub set_metabin_id : ℕ → ℕ → ℕ
  pub set_chunk_id : ℕ → ℕ → ℕ
  pub new_lem :
      (superbin_id new ≡ 0) × (metabin_id new ≡ 0) × (chunk_id new ≡ 0) × (new < 4294967296)
  pub set_superbin_id_lem :
      (k v : ℕ)
      → k < 4294967296
      → v < 64
      → (superbin_id (set_superbin_id k v) ≡ v)
        × (metabin_id (set_superbin_id k v) ≡ metabin_id k)
        × (chunk_id (set_superbin_id k v) ≡ chunk_id k)
        × (set_superbin_id k v < 4294967296)
  pub set_metabin_id_lem :
      (k v : ℕ)
      → k < 4294967296
      → v < 16384
      → (superbin_id (set_metabin_id k v) ≡ superbin_id k)
        × (metabin_id (set_metabin_id k v) ≡ v)
        × (chunk_id (set_metabin_id k v) ≡ chunk_id k)
        × (set_metabin_id k v < 4294967296)
  pub set_chunk_id_lem :
      (k v : ℕ)
      → k < 4294967296
      → v < 4096
      → (superbin_id (set_chunk_id k v) ≡ superbin_id k)
        × (metabin_id (set_chunk_id k v) ≡ metabin_id k)
        × (chunk_id (set_chunk_id k v) ≡ v)
        × (set_chunk_id k v < 4294967296)

-- The header behind the id of the bin.
abbrev pub header_at : ℕ → ℕ
header_at addr = addr + 1

abbrev pub write_header : ℕ → (ℕ → ℕ) → Memory → Memory
write_header addr mod_fn mem = write u32_layout addr (mod_fn (read u32_layout addr mem)) mem

module _ (h : HyperionPointerHeader) where
  abbrev pub superbin_id : ℕ → Memory → ℕ
  superbin_id self mem = h.superbin_id (read u32_layout (header_at self) mem)

  abbrev pub metabin_id : ℕ → Memory → ℕ
  metabin_id self mem = h.metabin_id (read u32_layout (header_at self) mem)

  abbrev pub bin_id : ℕ → Memory → ℕ
  bin_id self mem = read u8_layout self mem

  abbrev pub chunk_id : ℕ → Memory → ℕ
  chunk_id self mem = h.chunk_id (read u32_layout (header_at self) mem)

  unfoldable pub set_superbin_id : ℕ → ℕ → Memory → Memory
  set_superbin_id self value mem =
      write_header (header_at self) (λ k. h.set_superbin_id k value) mem

  unfoldable pub set_metabin_id : ℕ → ℕ → Memory → Memory
  set_metabin_id self value mem = write_header (header_at self) (λ k. h.set_metabin_id k value) mem

  unfoldable pub set_bin_id : ℕ → ℕ → Memory → Memory
  set_bin_id self value mem = write u8_layout self value mem

  unfoldable pub set_chunk_id : ℕ → ℕ → Memory → Memory
  set_chunk_id self value mem = write_header (header_at self) (λ k. h.set_chunk_id k value) mem

  -- `HyperionPointer::default`, written to an address.
  unfoldable pub default : ℕ → Memory → Memory
  default self mem =
      write u32_layout (header_at self)
        (h.set_chunk_id (h.set_metabin_id (h.set_superbin_id h.new 0) 0) 0)
        (write u8_layout self 0 mem)

  -- The ids that stand at an address.
  abbrev pub pointer_at : ℕ → Memory → HyperionPointer
  pointer_at self mem = record {
    superbin_id = superbin_id self mem;
    metabin_id = metabin_id self mem;
    bin_id = bin_id self mem;
    chunk_id = chunk_id self mem;
  }
