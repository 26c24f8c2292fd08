-- ===== src/NodeHeader/Values/RoundTrip.antt =====
-- Writing the value of a node and reading it back.
use hyperion_rust.Common.{
  ℕ, zero, suc, ◌+◌, ◌*◌, ◌%◌, ◌<◌, ◌≤◌, ◌≡◌, refl, sym, ap, ap₂, ◌∙◌, not, some, List, [], ◌∷◌,
  length, arith, if_both,
}
use hyperion_rust.Codes.{NodeType, leaf_node_with_value}
use hyperion_rust.NodeHeader.{
  Bitfields, Memory, TopNode, as_top_node, get_offset_node_value, value_offset, value_size,
  is_top_node, has_delta,
}
use hyperion_rust.NodeHeader.Values.{
  OperationContext, read_bytes, write_byte, write_bytes, set_node_value, set_type_flag, called,
  call_top_node, call_node, char_size,
}

value_offset_pos : (t : TopNode) → 1 ≤ value_offset t
unfolding value_offset
value_offset_pos t =
    if_both (λ n. 1 ≤ n) (is_top_node t) (omega arith)
      (if_both (λ n. 1 ≤ n) (not (has_delta t)) (omega arith) (omega arith))

write_bytes_before : (m : Memory) (o : ℕ) (v : List ℕ) (i : ℕ) → i < o → write_bytes m o v i ≡ m i
unfolding write_bytes
write_bytes_before m o [] i h = refl
write_bytes_before m o (b ∷ bs) i h =
    write_bytes_before (write_byte m o b) (o + 1) bs i (omega arith) ∙ ground arith

read_bytes-write_bytes :
    (m : Memory) (o : ℕ) (v : List ℕ) → read_bytes (write_bytes m o v) o (length v) ≡ v
unfolding read_bytes write_bytes
read_bytes-write_bytes m o [] = refl
read_bytes-write_bytes m o (b ∷ bs) =
    ap₂ (λ x xs. x ∷ xs)
      (write_bytes_before (write_byte m o b) (o + 1) bs o (omega arith) ∙ ground arith)
      (read_bytes-write_bytes (write_byte m o b) (o + 1) bs)

read_bytes-write_byte :
    (m : Memory) (o n b : ℕ) → 1 ≤ o → read_bytes (write_byte m 0 b) o n ≡ read_bytes m o n
unfolding read_bytes
read_bytes-write_byte m o zero b h = refl
read_bytes-write_byte m o (suc n) b h =
    ap₂ (λ x xs. x ∷ xs) (ground arith) (read_bytes-write_byte m (o + 1) n b (omega arith))

module _ (f : Bitfields) (m : Memory) where
  -- The memory once a value of the node is written.
  abbrev stored : List ℕ → Memory
  stored v = write_bytes m (char_size * get_offset_node_value f m) v

  same_header : (v : List ℕ) → stored v 0 ≡ m 0
  unfolding get_offset_node_value
  same_header v =
      write_bytes_before m (char_size * value_offset (f.top (m 0))) v 0
        (omega (arith, value_offset_pos (f.top (m 0))))

  same_offset :
      (m' : Memory) (t : NodeType)
      → m' 0 ≡ m 0
      → get_offset_node_value f (set_type_flag f m' t) ≡ get_offset_node_value f m
  unfolding get_offset_node_value value_offset
  same_offset m' t e = rw (e, f.top-with_type_flag (m 0) t) refl

  new_type : (m' : Memory) (t : NodeType) → (as_top_node f (set_type_flag f m' t)).type_flag ≡ t
  new_type m' t = rw (f.top-with_type_flag (m' 0) t) refl

module _ (f : Bitfields) (m : Memory) (c : OperationContext) where
  read_stored :
      (v : List ℕ)
      → length v ≡ 8
      → read_bytes
          (set_type_flag f (stored f m v) leaf_node_with_value)
          (char_size
            * get_offset_node_value f (set_type_flag f (stored f m v) leaf_node_with_value))
          value_size
        ≡ v
  read_stored v size =
      ap
        (λ o.
          read_bytes (set_type_flag f (stored f m v) leaf_node_with_value) (char_size * o)
            value_size)
        (same_offset f m (stored f m v) leaf_node_with_value (same_header f m v))
      ∙ (read_bytes-write_byte (stored f m v) (char_size * get_offset_node_value f m) value_size
            (f.with_type_flag (stored f m v 0) leaf_node_with_value) not_header
          ∙ (ap (λ n. read_bytes (stored f m v) (char_size * get_offset_node_value f m) n)
                (sym size)
              ∙ read_bytes-write_bytes m (char_size * get_offset_node_value f m) v))
    where
      not_header : 1 ≤ char_size * get_offset_node_value f m
      not_header = unfold get_offset_node_value in omega (arith, value_offset_pos (f.top (m 0)))

-- Once a node is set to eight bytes, a callback of a top node is given an offset of the value from
-- 1 on. The eight bytes stand from four times that offset on, and between the node's first byte and
-- there, the offset that the callback is given among it, every byte is as it was.
pub call_top_node-set_node_value :
    (f : Bitfields) (m : Memory) (c : OperationContext) (v : List ℕ) (k : ℕ)
    → length v ≡ 8
    → (o : ℕ) × (1 ≤ o)
      × (call_top_node f (set_node_value f m (record c { input_value = some v })).0 k
          ≡ called ((k + 1) % 65536) (some o))
      × (read_bytes (set_node_value f m (record c { input_value = some v })).0 (4 * o) 8 ≡ v)
      × ((i : ℕ)
          → 1 ≤ i
          → i < 4 * o
          → (set_node_value f m (record c { input_value = some v })).0 i ≡ m i)
unfolding set_node_value
call_top_node-set_node_value f m c v k size = (
  get_offset_node_value f after,
  unfold get_offset_node_value in value_offset_pos (f.top (after 0)),
  unfold call_top_node call_node in rw (new_type f m (stored f m v) leaf_node_with_value) refl,
  read_stored f m c v size,
  λ i some_bytes before. below i some_bytes (omega (arith, before, same)),
)
  where
    after : Memory
    after = set_type_flag f (stored f m v) leaf_node_with_value

    same : get_offset_node_value f after ≡ get_offset_node_value f m
    same = same_offset f m (stored f m v) leaf_node_with_value (same_header f m v)

    not_header : (i : ℕ) → 1 ≤ i → after i ≡ stored f m v i
    not_header i h = ground arith

    below : (i : ℕ) → 1 ≤ i → i < 4 * get_offset_node_value f m → after i ≡ m i
    below i h h' =
        not_header i h ∙ write_bytes_before m (char_size * get_offset_node_value f m) v i h'
