-- ===== src/NodeHeader/Offsets.antt =====
-- The layout that the offsets of node_header.rs describe.
use hyperion_rust.Common.{ℕ, ◌+◌, ◌*◌, ◌≡◌, sym, ap, ◌∙◌, if◌then◌else◌, true, false, not, arith}
use hyperion_rust.Codes.{link, child_link_into_bits}
use hyperion_rust.NodeHeader.{
  Bitfields, Memory, TopNode, as_top_node, as_sub_node, has_delta, is_top_node, jump_overhead,
  leaf_size, value_offset, get_jump_overhead, get_leaf_size, get_offset_top_node_delta,
  get_offset_top_node_nondelta, get_offset_top_node, get_offset_sub_node_delta,
  get_offset_sub_node_nondelta, get_offset_sub_node, get_offset_to_next_node, get_offset_node_value,
  get_offset_jump, get_offset_jump_table, get_child_link_size, child_size,
}

-- The byte of the key, which a node without a delta has.
abbrev pub key_size : TopNode → ℕ
key_size t = if not (has_delta t) then 1 else 0

-- A top node: header, key, jump, jump table and value follow each other.
-- The jump is after header and key, the jump table after the jump, and the next node after them
-- and the value. The value's own offset leaves the key out: a value at it ends where the next
-- node starts if the node has a delta, and one byte before that if it has none.
pub top_node_layout :
    (f : Bitfields) (m : Memory)
    → is_top_node (as_top_node f m) ≡ true
    → (get_offset_jump f m ≡ 1 + key_size (as_top_node f m))
      × (get_offset_jump_table f m ≡ get_offset_jump f m + (as_top_node f m).jump_successor * 2)
      × (get_offset_to_next_node f m
          ≡ get_offset_jump_table f m
            + (as_top_node f m).jump_table * 30
            + leaf_size (as_top_node f m).type_flag)
      × (get_offset_node_value f m
            + leaf_size (as_top_node f m).type_flag
            + key_size (as_top_node f m)
          ≡ get_offset_to_next_node f m)
unfolding get_offset_jump get_offset_jump_table get_offset_to_next_node get_offset_top_node
    get_offset_top_node_delta get_offset_top_node_nondelta get_jump_overhead get_leaf_size
    jump_overhead get_offset_node_value value_offset
top_node_layout f m is_top = rw is_top (
  ground arith,
  ground (arith, f.flags (m 0)),
  ground (arith, f.flags (m 0)),
  ground (arith, f.flags (m 0)),
)

-- A sub node that links a container: the bits of the link are read as a jump table's flag too, so
-- that the next node is taken to be 30 bytes beyond header, key and link.
pub sub_node_link_overhead :
    (f : Bitfields) (m : Memory)
    → is_top_node (as_top_node f m) ≡ false
    → (as_sub_node f m).child_container ≡ link
    → get_offset_to_next_node f m ≡ 1 + key_size (as_top_node f m) + 8 + 30
unfolding get_offset_to_next_node get_offset_sub_node get_offset_sub_node_delta
    get_offset_sub_node_nondelta get_jump_overhead jump_overhead get_child_link_size
sub_node_link_overhead f m is_sub e = rw (is_sub, e) (unfold child_size in ground (arith, bits))
  where
    bits : ((as_top_node f m).jump_successor ≡ 0) × ((as_top_node f m).jump_table ≡ 1)
    bits = omega (arith, f.flags (m 0), one)
      where
        one : 1 ≡ 2 * (as_top_node f m).jump_successor + (as_top_node f m).jump_table
        one = unfold child_link_into_bits in sym (ap child_link_into_bits e) ∙ f.aliased (m 0)
