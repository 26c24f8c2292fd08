-- ===== src/Mask/Bytes.antt =====
-- A usage mask as the bytes that the searches read.
use hyperion_rust.Common.{
  ℕ, zero, suc, ◌+◌, ◌-◌, ◌*◌, ◌/◌, ◌%◌, ◌<◌, ◌≡◌, refl, ap, ap₂, sym, ◌∙◌, List, [], ◌∷◌, length,
  get_or, All, arith, dec_lt,
}
use hyperion_rust.Common.Bits.{bit_at, bit_at-zero, count_ones, count_ones-add}
use hyperion_rust.Simd.Lanes.{IsByte, bytes_of}
use hyperion_rust.Simd.FirstBit.Spec.{mem_bit}
use hyperion_rust.Simd.Count.{ones}
use hyperion_rust.Mask.{IsWord, free_at, free_count}

pub length-bytes_of : (mask : List ℕ) → length (bytes_of mask) ≡ 4 * length mask
unfolding bytes_of
length-bytes_of [] = refl
length-bytes_of (w ∷ ws) = omega (arith, length-bytes_of ws)

pub bytes_of-IsByte : (mask : List ℕ) → All IsByte (bytes_of mask)
unfolding bytes_of
bytes_of-IsByte [] = tt
bytes_of-IsByte (w ∷ ws) =
    (omega arith, (omega arith, (omega arith, (omega arith, bytes_of-IsByte ws))))

bit_at_low : (v r : ℕ) → r < 8 → bit_at (v % 256) r ≡ bit_at v r
unfolding bit_at
bit_at_low v zero h = omega arith
bit_at_low v (suc zero) h = omega arith
bit_at_low v (suc (suc zero)) h = omega arith
bit_at_low v (suc (suc (suc zero))) h = omega arith
bit_at_low v (suc (suc (suc (suc zero)))) h = omega arith
bit_at_low v (suc (suc (suc (suc (suc zero))))) h = omega arith
bit_at_low v (suc (suc (suc (suc (suc (suc zero)))))) h = omega arith
bit_at_low v (suc (suc (suc (suc (suc (suc (suc zero))))))) h = omega arith
bit_at_low v (suc (suc (suc (suc (suc (suc (suc (suc r)))))))) h = absurd (omega arith)

bit_at_byte : (v i : ℕ) → bit_at v (8 + i) ≡ bit_at (v / 256) i
unfolding bit_at
bit_at_byte v i =
    ap (bit_at v) {x = 8 + i} {y = suc (suc (suc (suc (suc (suc (suc (suc i)))))))} (omega arith)
    ∙ ap (λ t. bit_at t i) (omega arith)

bit_at_bytes : (v w i n : ℕ) → w / 256 ≡ v → n ≡ 8 + i → bit_at w n ≡ bit_at v i
bit_at_bytes v w i n e h = ap (bit_at w) h ∙ bit_at_byte w i ∙ ap (λ t. bit_at t i) e

-- Bit `r` of byte `q` of a word.
word_byte :
    (w : ℕ) (ws : List ℕ) (q r : ℕ)
    → q < 4
    → r < 8
    → bit_at (get_or (bytes_of (w ∷ ws)) q 0) r ≡ bit_at w (8 * q + r)
unfolding bytes_of
word_byte w ws zero r h k = bit_at_low w r k ∙ ap (bit_at w) {x = r} (omega arith)
word_byte w ws (suc zero) r h k = bit_at_low (w / 256) r k ∙ sym (bit_at_byte w r)
word_byte w ws (suc (suc zero)) r h k =
    bit_at_low (w / 65536) r k
    ∙ sym (
        bit_at_bytes (w / 256) w (8 + r) (16 + r) refl (omega arith)
        ∙ bit_at_bytes (w / 65536) (w / 256) r (8 + r) (omega arith) refl)
word_byte w ws (suc (suc (suc zero))) r h k =
    bit_at_low (w / 16777216) r k
    ∙ sym (
        bit_at_bytes (w / 256) w (16 + r) (24 + r) refl (omega arith)
        ∙ bit_at_bytes (w / 65536) (w / 256) (8 + r) (16 + r) (omega arith) (omega arith)
        ∙ bit_at_bytes (w / 16777216) (w / 65536) r (8 + r) (omega arith) refl)
word_byte w ws (suc (suc (suc (suc q)))) r h k = absurd (omega arith)

later_bytes :
    (w : ℕ) (ws : List ℕ) (q : ℕ)
    → get_or (bytes_of (w ∷ ws)) (suc (suc (suc (suc q)))) 0 ≡ get_or (bytes_of ws) q 0
unfolding bytes_of
later_bytes w ws q = refl

-- Bit `i` of the bytes is bit `i` of the mask.
pub mem_bit-bytes_of : (mask : List ℕ) (i : ℕ) → mem_bit (bytes_of mask) i ≡ free_at mask i
mem_bit-bytes_of [] i = unfold bytes_of in bit_at-zero (i % 8) ∙ sym (bit_at-zero (i % 32))
mem_bit-bytes_of (w ∷ ws) i = elim (dec_lt i 32) [
  | yes p ↦
      word_byte w ws (i / 8) (i % 8) (omega arith) (omega arith)
      ∙ ap₂ (λ q r. bit_at (get_or (w ∷ ws) q 0) r) {x = 0} {u = 8 * (i / 8) + i % 8} (omega arith)
          (omega arith)
  | no p ↦
      ap₂ (λ q r. bit_at (get_or (bytes_of (w ∷ ws)) q 0) r) {x = i / 8}
        {y = suc (suc (suc (suc ((i - 32) / 8))))} {u = i % 8} {v = (i - 32) % 8} (omega arith)
        (omega arith)
      ∙ ap (λ b. bit_at b ((i - 32) % 8)) (later_bytes w ws ((i - 32) / 8))
      ∙ mem_bit-bytes_of ws (i - 32)
      ∙ ap₂ (λ q r. bit_at (get_or (w ∷ ws) q 0) r) {x = suc ((i - 32) / 32)} {u = (i - 32) % 32}
          (omega arith) (omega arith)
]

-- The ones of the bytes are the ones of the words.
pub ones-bytes_of : (mask : List ℕ) → All IsWord mask → ones (bytes_of mask) ≡ free_count mask
unfolding ones bytes_of free_count
ones-bytes_of [] h = refl
ones-bytes_of (w ∷ ws) h = omega (
  arith,
  ones-bytes_of ws h.1,
  ap (count_ones 32) {x = w} {y = w % 256 + 256 * (w / 256)} (omega arith),
  count_ones-add 8 24 (w % 256) (w / 256) (omega arith),
  ap (count_ones 24) {x = w / 256} {y = w / 256 % 256 + 256 * (w / 65536)} (omega arith),
  count_ones-add 8 16 (w / 256 % 256) (w / 65536) (omega arith),
  ap (count_ones 16) {x = w / 65536} {y = w / 65536 % 256 + 256 * (w / 16777216)} (omega arith),
  count_ones-add 8 8 (w / 65536 % 256) (w / 16777216) (omega arith),
  ap (count_ones 8) {x = w / 16777216} {y = w / 16777216 % 256} (omega arith),
)
