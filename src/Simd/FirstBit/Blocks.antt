-- ===== src/Simd/FirstBit/Blocks.antt =====
-- `get_index_first_set_bit_4096_2`: the search of the sixteen blocks, from any start.
use hyperion_rust.Common.{
  ℕ, zero, suc, ◌+◌, ◌-◌, ◌*◌, ◌/◌, ◌%◌, ◌<◌, ◌≤◌, ◌≡◌, refl, ap, ap₂, ◌∙◌, List, Option, none,
  some, get_or, length, All, arith, sym, subst, drop, dec_lt, length-take, length-drop, All-take,
  All-drop, get_or-take, get_or-drop, get_or_beyond,
}
use hyperion_rust.Common.Bits.{bit_at, bit_at-zero}
use hyperion_rust.Simd.Lanes.{IsByte, Features}
use hyperion_rust.Simd.FirstBit.Spec.{mem_bit, IsFirstSet}
use hyperion_rust.Simd.FirstBit.Agree.{get_index_first_set_bit_256_2-IsFirstSet}
use hyperion_rust.Simd.FirstBit.{
  block_at, blocks_2, get_index_first_set_bit_256_2, get_index_first_set_bit_4096_2,
}

-- The answer and the new `PSEUDORAND`: a set bit, the least of its block, whose number is kept;
-- or nothing, with the start reset, when every bit is clear.
abbrev pub IsSetIn : List ℕ → Option ℕ → ℕ → Type 0
IsSetIn p none next = ((j : ℕ) → mem_bit p j ≡ 0) × (next ≡ 0)
IsSetIn p (some i) next =
    (i < 4096)
    × (mem_bit p i ≡ 1)
    × (next ≡ i / 256)
    × ((j : ℕ) → next * 256 ≤ j → j < i → mem_bit p j ≡ 0)

module _ (c : Features) (p : List ℕ) (bytes : All IsByte p) (size : length p ≡ 512) where
  mem_bit-block_at : (b j : ℕ) → j < 256 → mem_bit (block_at p b) j ≡ mem_bit p (b * 256 + j)
  mem_bit-block_at b j h = ap₂ bit_at {u = j % 8} {v = (b * 256 + j) % 8} byte (omega arith)
    where
      byte : get_or (block_at p b) (j / 8) 0 ≡ get_or p ((b * 256 + j) / 8) 0
      byte =
          get_or-take 32 (j / 8) (drop (b * 32) p) 0 (omega arith)
          ∙ get_or-drop (b * 32) (j / 8) p 0
          ∙ ap (λ k. get_or p k 0) {x = b * 32 + j / 8} (omega arith)

  search :
      (b : ℕ)
      → b < 16
      → IsFirstSet (block_at p b) (get_index_first_set_bit_256_2 c (some (block_at p b)))
  search b h =
      get_index_first_set_bit_256_2-IsFirstSet c (block_at p b)
        (All-take IsByte 32 _ (All-drop IsByte (b * 32) p bytes))
        (omega (arith, length-take 32 (drop (b * 32) p), length-drop (b * 32) p))

  -- What the rounds from `i` on answer.
  abbrev IsScan : ℕ → ℕ → Option ℕ → ℕ → Type 0
  IsScan offset i none next =
      ((k j : ℕ) → i ≤ k → k < 16 → j < 256 → mem_bit p ((k + offset) % 16 * 256 + j) ≡ 0)
      × (next ≡ 0)
  IsScan offset i (some r) next = IsSetIn p (some r) next

  -- One round: the answer of its block, before that of the other rounds.
  abbrev round : ℕ → Option ℕ → Option ℕ × ℕ → Option ℕ × ℕ
  round b o rest = elim o [ none ↦ rest | some res ↦ (some (b * 256 + res), b) ]

  IsScan-round :
      (offset i : ℕ) (o rest : Option ℕ) (next : ℕ)
      → IsFirstSet (block_at p ((i + offset) % 16)) o
      → IsScan offset (i + 1) rest next
      → let r = round ((i + offset) % 16) o (rest, next) in IsScan offset i r.0 r.1
  IsScan-round offset i none none next clear later = (
    λ k j low high inside. elim (dec_lt i k) [
      | yes above ↦ later.0 k j (omega arith) high inside
      | no same ↦
          subst (λ m. mem_bit p ((m + offset) % 16 * 256 + j) ≡ 0) (omega arith)
            (sym (mem_bit-block_at ((i + offset) % 16) j inside) ∙ clear j)
    ],
    later.1,
  )
  IsScan-round offset i none (some r) next clear later = later
  IsScan-round offset i (some res) rest next found later = (
    omega (arith, below),
    sym (mem_bit-block_at b res below) ∙ found.1,
    omega (arith, below),
    λ j low high.
        subst (λ m. mem_bit p m ≡ 0) {x = b * 256 + (j - b * 256)} (omega arith)
          (sym (mem_bit-block_at b (j - b * 256) (omega (arith, below)))
            ∙ found.2 (j - b * 256) (omega arith)),
  )
    where
      b : ℕ
      b = (i + offset) % 16

      below : res < 256
      below = omega (arith, found.0, length-take 32 (drop (b * 32) p))

  IsScan-blocks_2 :
      (offset n i : ℕ)
      → i + n ≡ 16
      → IsScan offset i (blocks_2 c p offset n i).0 (blocks_2 c p offset n i).1
  unfolding blocks_2
  IsScan-blocks_2 offset zero i e = (λ k j a b d. absurd (omega arith), refl)
  IsScan-blocks_2 offset (suc n) i e =
      let rest = blocks_2 c p offset n (i + 1) in
      IsScan-round offset i _ rest.0 rest.1 (search ((i + offset) % 16) (omega arith))
        (IsScan-blocks_2 offset n (i + 1) (omega arith))

  clear_of_scan : (offset : ℕ) (o : Option ℕ) (next : ℕ) → IsScan offset 0 o next → IsSetIn p o next
  clear_of_scan offset none next h = (
    λ j. elim (dec_lt j 4096) [
      | yes inside ↦
          subst (λ m. mem_bit p m ≡ 0) {x = (k j + offset) % 16 * 256 + j % 256} (omega arith)
            (h.0 (k j) (j % 256) (omega arith) (omega arith) (omega arith))
      | no outside ↦
          ap (λ b. bit_at b (j % 8)) (get_or_beyond p (j / 8) 0 (omega arith)) ∙ bit_at-zero (j % 8)
    ],
    h.1,
  )
    where
      k : ℕ → ℕ
      k j = (j / 256 + 16 - offset % 16) % 16
  clear_of_scan offset (some i) next h = h

  -- Wherever it starts, the search of 512 bytes finds a set bit if there is one: the least of the
  -- block where it stops, whose number is kept as the next start. It finds nothing only if all
  -- bits are clear, and then the next start is 0.
  pub get_index_first_set_bit_4096_2-IsSetIn :
      (pseudorand : ℕ) → let r = get_index_first_set_bit_4096_2 c p pseudorand in IsSetIn p r.0 r.1
  unfolding get_index_first_set_bit_4096_2
  get_index_first_set_bit_4096_2-IsSetIn pseudorand =
      clear_of_scan pseudorand _ _ (IsScan-blocks_2 pseudorand 16 0 refl)
