-- ===== src/NodeHeader.antt =====
-- hyperion/components/node_header.rs, top_node.rs, sub_node.rs and the keys of node.rs: the byte
-- that heads a node, and the offsets of what follows it. The bitfield crate's reading and writing
-- of the byte is a parameter. Memory is a function from an offset to a byte, from the header on.
pub mod Offsets
pub mod Values
use hyperion_rust.Common.{
  ℕ, zero, suc, ◌+◌, ◌-◌, ◌*◌, ◌/◌, ◌%◌, ◌<◌, ◌≡◌, ◌==◌, ltb, if◌then◌else◌, Bool, true, false, not,
  ◌||◌, ◌&&◌, Option, none, some, List, [], ◌∷◌,
}
use hyperion_rust.Codes.{
  NodeType, invalid, inner_node, leaf_node_empty, leaf_node_with_value, ChildLinkType, no_child,
  link, embedded_container, path_compressed, child_link_into_bits,
}
use hyperion_rust.Container.{container_link_size}

pub record TopNode : Type 0 where
  pub type_flag : NodeType
  pub container_type : ℕ
  pub delta : ℕ
  pub jump_successor : ℕ
  pub jump_table : ℕ

pub record SubNode : Type 0 where
  pub type_flag : NodeType
  pub container_type : ℕ
  pub delta : ℕ
  pub child_container : ChildLinkType

abbrev pub has_delta : TopNode → Bool
has_delta t = not (t.delta == 0)

abbrev pub is_top_node : TopNode → Bool
is_top_node t = t.container_type == 0

abbrev pub is_sub_node : TopNode → Bool
is_sub_node t = t.container_type == 1

-- What the generated bitfields promise of the union's byte: the two views share the first three
-- fields, a sub node's link takes the bits of a top node's two flags, a flag is a bit, and setting
-- the type changes the type only. A path-compressed header has seven bits of size and a flag.
pub record Bitfields : Type 0 where
  pub top : ℕ → TopNode
  pub sub : ℕ → SubNode
  pub with_type_flag : ℕ → NodeType → ℕ
  pub pc_size : ℕ → ℕ
  pub pc_value_present : ℕ → ℕ
  pub same_type : (b : ℕ) → (sub b).type_flag ≡ (top b).type_flag
  pub same_delta : (b : ℕ) → (sub b).delta ≡ (top b).delta
  pub aliased :
      (b : ℕ)
      → child_link_into_bits (sub b).child_container
        ≡ 2 * (top b).jump_successor + (top b).jump_table
  pub flags : (b : ℕ) → ((top b).jump_successor < 2) × ((top b).jump_table < 2)
  pub top-with_type_flag :
      (b : ℕ) (t : NodeType) → top (with_type_flag b t) ≡ record (top b) { type_flag = t }

-- The bytes of a node: the header at offset 0.
abbrev pub Memory : Type 0
Memory = ℕ → ℕ

-- The sizes of `NodeHeader`, `NodeValue`, `TopNodeJumpTable` and `PathCompressedNodeHeader`.
abbrev pub header_size : ℕ
header_size = 1

abbrev pub value_size : ℕ
value_size = 8

abbrev pub top_jump_table_size : ℕ
top_jump_table_size = 30

unfoldable pub leaf_size : NodeType → ℕ
leaf_size invalid = 0
leaf_size inner_node = 0
leaf_size leaf_node_empty = 0
leaf_size leaf_node_with_value = value_size

unfoldable pub jump_overhead : TopNode → ℕ
jump_overhead t = (t.jump_successor * 2 % 256 + t.jump_table * top_jump_table_size % 256) % 256

unfoldable pub value_offset : TopNode → ℕ
unfolding jump_overhead
value_offset t =
    if is_top_node t
    then header_size + jump_overhead t
    else if not (has_delta t)
    then header_size + 1
    else header_size

module _ (f : Bitfields) (m : Memory) where
  abbrev pub as_top_node : TopNode
  as_top_node = f.top (m 0)

  abbrev pub as_sub_node : SubNode
  as_sub_node = f.sub (m 0)

  unfoldable pub get_jump_overhead : ℕ
  get_jump_overhead = jump_overhead as_top_node

  unfoldable pub get_leaf_size : ℕ
  get_leaf_size = leaf_size as_top_node.type_flag

  unfoldable pub get_offset_child_container : ℕ
  get_offset_child_container =
      if as_top_node.delta == 0
      then header_size + 1 + get_leaf_size
      else header_size + get_leaf_size

  -- The size of a child: that of a link, or the one in the child's own header.
  unfoldable pub child_size : ChildLinkType → ℕ
  child_size no_child = 0
  child_size link = container_link_size
  child_size embedded_container = m get_offset_child_container
  child_size path_compressed = f.pc_size (m get_offset_child_container)

  unfoldable pub get_child_link_size : ℕ
  get_child_link_size = child_size as_sub_node.child_container

  unfoldable pub get_offset_top_node_delta : ℕ
  get_offset_top_node_delta = header_size + get_jump_overhead + get_leaf_size

  unfoldable pub get_offset_top_node_nondelta : ℕ
  get_offset_top_node_nondelta = get_offset_top_node_delta + 1

  unfoldable pub get_offset_top_node : ℕ
  get_offset_top_node =
      if not (has_delta as_top_node)
      then get_offset_top_node_nondelta
      else get_offset_top_node_delta

  unfoldable pub get_offset_sub_node_delta : ℕ
  get_offset_sub_node_delta = header_size + get_jump_overhead + get_child_link_size

  unfoldable pub get_offset_sub_node_nondelta : ℕ
  get_offset_sub_node_nondelta = get_offset_sub_node_delta + 1

  unfoldable pub get_offset_sub_node : ℕ
  get_offset_sub_node =
      if not (has_delta as_top_node)
      then get_offset_sub_node_nondelta
      else get_offset_sub_node_delta

  unfoldable pub get_offset_to_next_node : ℕ
  get_offset_to_next_node =
      if is_top_node as_top_node then get_offset_top_node else get_offset_sub_node

  unfoldable pub get_offset_node_value : ℕ
  get_offset_node_value = value_offset as_top_node

  unfoldable pub get_offset_jump : ℕ
  get_offset_jump = if not (has_delta as_top_node) then header_size + 1 else header_size

  -- A u16 in little-endian order.
  abbrev pub get_jump_value : ℕ
  get_jump_value = m get_offset_jump + 256 * m (get_offset_jump + 1)

  unfoldable pub get_offset_jump_table : ℕ
  get_offset_jump_table = (get_offset_jump % 65536 + as_top_node.jump_successor * 2 % 65536) % 65536

-- `get_top_node_key` and `get_sub_node_key`: the key is the last one seen and the delta, or the
-- stored byte, if one was seen. The addition of two bytes wraps around.
abbrev pub add_u8 : ℕ → ℕ → ℕ
add_u8 a b = (a + b) % 256

unfoldable pub get_top_node_key : TopNode → ℕ → ℕ → ℕ → ℕ
get_top_node_key t stored_value last_top_char_set last_top_char_seen =
    if last_top_char_set == 1
    then if has_delta t
      then add_u8 last_top_char_seen t.delta
      else add_u8 last_top_char_seen stored_value
    else stored_value

unfoldable pub get_sub_node_key : SubNode → ℕ → ℕ → ℕ → Bool → ℕ
get_sub_node_key s stored_value last_sub_char_set last_sub_char_seen force =
    if force || (last_sub_char_set == 1)
    then if not (s.delta == 0)
      then add_u8 last_sub_char_seen s.delta
      else add_u8 last_sub_char_seen stored_value
    else stored_value
