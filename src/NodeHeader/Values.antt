-- ===== src/NodeHeader/Values.antt =====
-- Reading and writing the value of a node: `get_node_value`, `set_node_value` and the comparison of
-- a path-compressed child of node_header.rs, with the fields of context.rs that they use.
pub mod RoundTrip
use hyperion_rust.Common.{
  ℕ, zero, suc, ◌+◌, ◌-◌, ◌*◌, ◌/◌, ◌%◌, ◌==◌, ltb, leb, if◌then◌else◌, Bool, true, false, not,
  ◌||◌, ◌&&◌, Option, none, some, List, [], ◌∷◌,
}
use hyperion_rust.Codes.{NodeType, invalid, inner_node, leaf_node_empty, leaf_node_with_value}
use hyperion_rust.NodeHeader.{
  Bitfields, Memory, TopNode, as_top_node, as_sub_node, get_offset_node_value,
  get_offset_child_container, value_size,
}

-- return_codes.rs.
pub data ReturnCode : Type 0 where
  ok key_not_found blank shift_failure container_invalid_size expanding_container_failed :
      ReturnCode
  expanding_calloc_failed expanding_necessary child_container_missing : ReturnCode
  pointer_out_of_container_bound pointer_null pointer_invalid add_value_failure : ReturnCode
  put_failure_expand_failed put_failure_valueadd_needs_shift : ReturnCode
  put_failure_keyadd_needs_shift get_failure_traverse get_failure_no_node : ReturnCode
  get_failure_no_leaf unknown_operation initial : ReturnCode

-- The flags of `OperationContextHeader` that they read or set, and the values. `none` is an
-- `Option` of the source that is `None`; a value is its eight bytes.
pub record OperationContext : Type 0 where
  pub operation_done : ℕ
  pub performed_put : ℕ
  pub pathcompressed_child : ℕ
  pub return_value : List ℕ
  pub input_value : Option (List ℕ)

-- `n` bytes from an offset on.
unfoldable pub read_bytes : Memory → ℕ → ℕ → List ℕ
read_bytes m offset zero = []
read_bytes m offset (suc n) = m offset ∷ read_bytes m (offset + 1) n

abbrev pub write_byte : Memory → ℕ → ℕ → Memory
write_byte m offset b i = if i == offset then b else m i

unfoldable pub write_bytes : Memory → ℕ → List ℕ → Memory
write_bytes m offset [] = m
write_bytes m offset (b ∷ bs) = write_bytes (write_byte m offset b) (offset + 1) bs

abbrev pub is_leaf : NodeType → Bool
is_leaf invalid = false
is_leaf inner_node = false
is_leaf leaf_node_empty = true
is_leaf leaf_node_with_value = true

abbrev pub has_value : NodeType → Bool
has_value invalid = false
has_value inner_node = false
has_value leaf_node_empty = false
has_value leaf_node_with_value = true

-- The pointers that `as_raw_char` and the operation's key give are to `char`, which has four bytes:
-- adding an offset to one goes four times as far.
abbrev pub char_size : ℕ
char_size = 4

-- The arguments of a callback: the length of the key, and where the value stands, if there is one.
pub data Callback : Type 0 where
  not_called : Callback
  called : ℕ → Option ℕ → Callback

module _ (f : Bitfields) where
  unfoldable pub get_node_value_pc : Memory → OperationContext → ReturnCode × OperationContext
  get_node_value_pc m c =
      let child = get_offset_child_container f m in
      (
        ok,
        record c {
          operation_done = 1;
          return_value =
              if ltb 0 (f.pc_value_present (m child))
              then read_bytes m (child + char_size * 1) value_size
              else c.return_value;
        },
      )

  unfoldable pub get_node_value : Memory → OperationContext → ReturnCode × OperationContext
  get_node_value m c =
      let t = (as_top_node f m).type_flag in
      if c.pathcompressed_child == 1
      then get_node_value_pc m c
      else if not (is_leaf t)
      then (get_failure_no_leaf, c)
      else (
        ok,
        record c {
          operation_done = 1;
          return_value =
              if has_value t
              then read_bytes m (char_size * get_offset_node_value f m) value_size
              else c.return_value;
        },
      )

  abbrev pub set_type_flag : Memory → NodeType → Memory
  set_type_flag m t = write_byte m 0 (f.with_type_flag (m 0) t)

  -- The memory and the context after the call. The code is always `OK`.
  unfoldable pub set_node_value : Memory → OperationContext → Memory × OperationContext
  set_node_value m c =
      let c1 = record c {
        performed_put = if not (is_leaf (as_top_node f m).type_flag) then 1 else c.performed_put;
      } in
      (
        elim c.input_value [
          | none ↦ set_type_flag m leaf_node_empty
          | some v ↦
              set_type_flag (write_bytes m (char_size * get_offset_node_value f m) v)
                leaf_node_with_value
        ],
        record c1 { operation_done = 1 },
      )

  abbrev pub same_bytes : List ℕ → List ℕ → Bool
  same_bytes [] [] = true
  same_bytes [] (y ∷ ys) = false
  same_bytes (x ∷ xs) [] = false
  same_bytes (x ∷ xs) (y ∷ ys) = (x == y) && same_bytes xs ys

  -- `key` is the memory from the operation's key on. The length of the stored key is a u8,
  -- which wraps around when the child is smaller than its overhead.
  unfoldable pub compare_path_compressed_node : Memory → Memory → ℕ → Bool
  compare_path_compressed_node m key key_len_left =
      let child = get_offset_child_container f m in
      let overhead = 1 + f.pc_value_present (m child) * value_size in
      let key_len = (f.pc_size (m child) + (256 - overhead)) % 256 in
      if not (key_len_left == key_len + 2)
      then false
      else same_bytes (read_bytes key (char_size * 2) key_len)
          (read_bytes m (child + overhead) key_len)

  -- `call_top_node` adds 1 to the key's offset and `call_sub_node` 2, in a u16; the second takes the
  -- type from the other view. `not_called` is a node that holds no key: the result is true then.
  unfoldable pub call_node : NodeType → ℕ → Memory → ℕ → Callback
  call_node invalid n m current_key_offset = not_called
  call_node inner_node n m current_key_offset = not_called
  call_node leaf_node_empty n m current_key_offset = called ((current_key_offset + n) % 65536) none
  call_node leaf_node_with_value n m current_key_offset =
      called ((current_key_offset + n) % 65536) (some (get_offset_node_value f m))

  unfoldable pub call_top_node : Memory → ℕ → Callback
  call_top_node m current_key_offset = call_node (as_top_node f m).type_flag 1 m current_key_offset

  unfoldable pub call_sub_node : Memory → ℕ → Callback
  call_sub_node m current_key_offset = call_node (as_sub_node f m).type_flag 2 m current_key_offset
