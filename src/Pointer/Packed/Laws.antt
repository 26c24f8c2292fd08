-- ===== src/Pointer/Packed/Laws.antt =====
-- The packed pointer and the record of four ids.
use hyperion_rust.Common.{
  ℕ, zero, suc, if_both, leb, ltb, ◌+◌, ◌-◌, ◌<◌, ◌≤◌, ◌≡◌, refl, ap, ◌∙◌, ◌⊎◌, inl, inr, arith,
}
use hyperion_rust.Simd.Lanes.{IsByte}
use hyperion_rust.Pointer.{HyperionPointer, default_pointer}
use hyperion_rust.Pointer
use hyperion_rust.Pointer.Packed.{
  Memory, Layout, read, write, byte_of, u8_layout, u32_layout, HyperionPointerHeader,
  set_superbin_id, set_metabin_id, set_bin_id, set_chunk_id, default, pointer_at,
}

write_inside :
    {A : Type 0} (L : Layout A) (addr : ℕ) (value : A) (mem : Memory) (i : ℕ)
    → i < L.size
    → write L addr value mem (addr + i) ≡ L.to_byte value i
unfolding write
write_inside L addr value mem i h =
    ground arith ∙ ap (L.to_byte value) {x = addr + i - addr} (omega arith)

write_outside :
    {A : Type 0} (L : Layout A) (addr : ℕ) (value : A) (mem : Memory) (i : ℕ)
    → (i < addr) ⊎ (addr + L.size ≤ i)
    → write L addr value mem i ≡ mem i
unfolding write
write_outside L addr value mem i h = ground arith

write-IsByte :
    {A : Type 0} (L : Layout A) (addr : ℕ) (value : A) (mem : Memory)
    → ((i : ℕ) → IsByte (L.to_byte value i))
    → ((i : ℕ) → IsByte (mem i))
    → (i : ℕ) → IsByte (write L addr value mem i)
unfolding write
write-IsByte L addr value mem h bytes i =
    if_both {A = ℕ} IsByte (leb addr i)
      (if_both {A = ℕ} IsByte (ltb i (addr + L.size)) (h (i - addr)) (bytes i)) (bytes i)

byte_of-lt : (v i : ℕ) → IsByte (byte_of v i)
unfolding byte_of
byte_of-lt v zero = omega arith
byte_of-lt v (suc zero) = omega arith
byte_of-lt v (suc (suc zero)) = omega arith
byte_of-lt v (suc (suc (suc i))) = omega arith

-- A header that was written is read back.
read-write :
    (addr k : ℕ) (mem : Memory)
    → k < 4294967296
    → read u32_layout addr (write u32_layout addr k mem) ≡ k
unfolding read byte_of
read-write addr k mem h =
    rw
      (
        write_inside u32_layout addr k mem 0 (omega arith),
        write_inside u32_layout addr k mem 1 (omega arith),
        write_inside u32_layout addr k mem 2 (omega arith),
        write_inside u32_layout addr k mem 3 (omega arith),
      )
      (omega arith)

module _ (h : HyperionPointerHeader) where
  -- The memory holds the pointer at the address, and nothing but its five bytes was changed.
  abbrev pub Replaces : ℕ → Memory → Memory → HyperionPointer → Type 0
  Replaces self mem mem' p =
      (pointer_at h self mem' ≡ p)
      × ((i : ℕ) → IsByte (mem' i))
      × ((i : ℕ) → (i < self) ⊎ (self + 5 ≤ i) → mem' i ≡ mem i)

  -- The ids of a header, and that of the bin.
  abbrev ids : ℕ → ℕ → HyperionPointer
  ids k bin_id = record {
    superbin_id = h.superbin_id k;
    metabin_id = h.metabin_id k;
    bin_id = bin_id;
    chunk_id = h.chunk_id k;
  }

  -- A header that is written.
  header-Replaces :
      (self k : ℕ) (mem : Memory)
      → ((i : ℕ) → IsByte (mem i))
      → k < 4294967296
      → Replaces self mem (write u32_layout (self + 1) k mem) (ids k (mem (self + 0)))
  unfolding read
  header-Replaces self k mem bytes few = (
    ap (λ k'. ids k' (write u32_layout (self + 1) k mem (self + 0)))
          (read-write (self + 1) k mem few)
        ∙ ap (ids k) (write_outside u32_layout (self + 1) k mem (self + 0) (inl (omega arith))),
    byte,
    outside,
  )
    where
      byte : (i : ℕ) → IsByte (write u32_layout (self + 1) k mem i)
      byte = write-IsByte u32_layout (self + 1) k mem (byte_of-lt k) bytes

      outside : (i : ℕ) → (i < self) ⊎ (self + 5 ≤ i) → write u32_layout (self + 1) k mem i ≡ mem i
      outside i (inl below) = write_outside u32_layout (self + 1) k mem i (inl (omega arith))
      outside i (inr above) = write_outside u32_layout (self + 1) k mem i (inr (omega arith))

  read-lt :
      (addr : ℕ) (mem : Memory) → ((i : ℕ) → IsByte (mem i)) → read u32_layout addr mem < 4294967296
  unfolding read
  read-lt addr mem bytes =
      omega (arith, bytes (addr + 0), bytes (addr + 1), bytes (addr + 2), bytes (addr + 3))

  bin-Replaces :
      (self b : ℕ) (mem : Memory)
      → ((i : ℕ) → IsByte (mem i))
      → IsByte b
      → Replaces self mem
          (write u8_layout self b mem)
          (Pointer.set_bin_id (pointer_at h self mem) b)
  unfolding read
  bin-Replaces self b mem bytes few = (
    ap (λ k. ids k (write u8_layout self b mem (self + 0))) header_kept
        ∙ ap (ids (read u32_layout (self + 1) mem))
            (write_inside u8_layout self b mem 0 (omega arith)),
    write-IsByte u8_layout self b mem (λ i. few) bytes,
    outside,
  )
    where
      outside : (i : ℕ) → (i < self) ⊎ (self + 5 ≤ i) → write u8_layout self b mem i ≡ mem i
      outside i (inl below) = write_outside u8_layout self b mem i (inl (omega arith))
      outside i (inr above) = write_outside u8_layout self b mem i (inr (omega arith))

      kept : (i : ℕ) → write u8_layout self b mem (self + 1 + i) ≡ mem (self + 1 + i)
      kept i = write_outside u8_layout self b mem (self + 1 + i) (inr (omega arith))

      header_kept :
          read u32_layout (self + 1) (write u8_layout self b mem) ≡ read u32_layout (self + 1) mem
      header_kept = omega (arith, kept 0, kept 1, kept 2, kept 3)

  set_superbin_id-Replaces :
      (self v : ℕ) (mem : Memory)
      → ((i : ℕ) → IsByte (mem i))
      → v < 64
      → Replaces self mem
          (set_superbin_id h self v mem)
          (Pointer.set_superbin_id (pointer_at h self mem) v)
  unfolding set_superbin_id read
  set_superbin_id-Replaces self v mem bytes few =
      let law =
        h.set_superbin_id_lem (read u32_layout (self + 1) mem) v (read-lt (self + 1) mem bytes)
          few in
      let (same, byte, outside) =
        header-Replaces self (h.set_superbin_id (read u32_layout (self + 1) mem) v) mem bytes
          law.3 in
      (same ∙ rw (law.0, law.1, law.2) refl, byte, outside)

  set_metabin_id-Replaces :
      (self v : ℕ) (mem : Memory)
      → ((i : ℕ) → IsByte (mem i))
      → v < 16384
      → Replaces self mem
          (set_metabin_id h self v mem)
          (Pointer.set_metabin_id (pointer_at h self mem) v)
  unfolding set_metabin_id read
  set_metabin_id-Replaces self v mem bytes few =
      let law =
        h.set_metabin_id_lem (read u32_layout (self + 1) mem) v (read-lt (self + 1) mem bytes)
          few in
      let (same, byte, outside) =
        header-Replaces self (h.set_metabin_id (read u32_layout (self + 1) mem) v) mem bytes
          law.3 in
      (same ∙ rw (law.0, law.1, law.2) refl, byte, outside)

  set_chunk_id-Replaces :
      (self v : ℕ) (mem : Memory)
      → ((i : ℕ) → IsByte (mem i))
      → v < 4096
      → Replaces self mem
          (set_chunk_id h self v mem)
          (Pointer.set_chunk_id (pointer_at h self mem) v)
  unfolding set_chunk_id read
  set_chunk_id-Replaces self v mem bytes few =
      let law =
        h.set_chunk_id_lem (read u32_layout (self + 1) mem) v (read-lt (self + 1) mem bytes) few in
      let (same, byte, outside) =
        header-Replaces self (h.set_chunk_id (read u32_layout (self + 1) mem) v) mem bytes law.3 in
      (same ∙ rw (law.0, law.1, law.2) refl, byte, outside)

  default-Replaces :
      (self : ℕ) (mem : Memory)
      → ((i : ℕ) → IsByte (mem i))
      → Replaces self mem (default h self mem) default_pointer
  unfolding default read
  default-Replaces self mem bytes =
      let (_, byte, outside) = bin-Replaces self 0 mem bytes (omega arith) in
      let first = h.set_superbin_id_lem h.new 0 h.new_lem.3 (omega arith) in
      let second = h.set_metabin_id_lem (h.set_superbin_id h.new 0) 0 first.3 (omega arith) in
      let third =
        h.set_chunk_id_lem (h.set_metabin_id (h.set_superbin_id h.new 0) 0) 0 second.3
          (omega arith) in
      let (same, byte', outside') =
        header-Replaces self (h.set_chunk_id (h.set_metabin_id (h.set_superbin_id h.new 0) 0) 0)
          (write u8_layout self 0 mem) byte third.3 in
      (
        same
            ∙ rw
                (
                  third.0,
                  third.1,
                  third.2,
                  second.0,
                  second.1,
                  first.0,
                  write_inside u8_layout self 0 mem 0 (omega arith),
                )
                refl,
        byte',
        λ i out. outside' i out ∙ outside i out,
      )

  -- On a target that is little-endian and can read and write unaligned values, with a header whose
  -- fields behave as the bitfield crate documents, ids that fit their fields and a memory of bytes:
  -- each of the four setters changes, of the pointer at an address, the one id that it sets, as the
  -- record of four ids says it, and no byte of memory outside the pointer's five; and the default
  -- pointer that is written there has four ids 0.
  pub pointer_at-Replaces :
      (self superbin_id metabin_id bin_id chunk_id : ℕ) (mem : Memory)
      → ((i : ℕ) → IsByte (mem i))
      → superbin_id < 64
      → metabin_id < 16384
      → bin_id < 256
      → chunk_id < 4096
      → Replaces self mem
          (set_superbin_id h self superbin_id mem)
          (Pointer.set_superbin_id (pointer_at h self mem) superbin_id)
        × Replaces self mem
            (set_metabin_id h self metabin_id mem)
            (Pointer.set_metabin_id (pointer_at h self mem) metabin_id)
        × Replaces self mem
            (set_bin_id h self bin_id mem)
            (Pointer.set_bin_id (pointer_at h self mem) bin_id)
        × Replaces self mem
            (set_chunk_id h self chunk_id mem)
            (Pointer.set_chunk_id (pointer_at h self mem) chunk_id)
        × Replaces self mem (default h self mem) default_pointer
  unfolding set_superbin_id set_metabin_id set_bin_id set_chunk_id default read
  pointer_at-Replaces self superbin_id metabin_id bin_id chunk_id mem bytes few_s few_m few_b
        few_c =
      (
        set_superbin_id-Replaces self superbin_id mem bytes few_s,
        set_metabin_id-Replaces self metabin_id mem bytes few_m,
        bin-Replaces self bin_id mem bytes few_b,
        set_chunk_id-Replaces self chunk_id mem bytes few_c,
        default-Replaces self mem bytes,
      )
