-- ===== src/Tests/Nodes.antt =====
-- The bitfields of a node's header as the attributes of its structs lay them out, and uses of the
-- theorems on nodes and containers.
use hyperion_rust.Common.{
  ℕ, zero, suc, ◌==◌, ◌∙◌, ◌+◌, ◌*◌, ◌/◌, ◌%◌, ◌<◌, ◌≤◌, ◌≡◌, refl, List, [], ◌∷◌, none, some,
  arith, replicate, if◌then◌else◌,
}
use hyperion_rust.Codes.{
  NodeType, invalid, inner_node, leaf_node_empty, leaf_node_with_value, ChildLinkType, no_child,
  link, embedded_container, path_compressed, node_type_into_bits, child_link_into_bits,
}
use hyperion_rust.NodeHeader.{
  TopNode, Bitfields, Memory, leaf_size, get_offset_jump, get_offset_jump_table,
  get_offset_to_next_node, get_offset_node_value,
}
use hyperion_rust.NodeHeader.Offsets.{key_size, top_node_layout, sub_node_link_overhead}
use hyperion_rust.NodeHeader.Values.{
  OperationContext, set_node_value, call_top_node, called, read_bytes,
}
use hyperion_rust.NodeHeader.Values.RoundTrip.{call_top_node-set_node_value}
use hyperion_rust.Container.{Container, JumpEntry}

abbrev type_of : ℕ → NodeType
type_of zero = invalid
type_of (suc zero) = inner_node
type_of (suc (suc zero)) = leaf_node_empty
type_of (suc (suc (suc n))) = leaf_node_with_value

abbrev child_of : ℕ → ChildLinkType
child_of zero = no_child
child_of (suc zero) = link
child_of (suc (suc zero)) = embedded_container
child_of (suc (suc (suc n))) = path_compressed

type_of-into_bits : (t : NodeType) → type_of (node_type_into_bits t) ≡ t
unfolding node_type_into_bits
type_of-into_bits invalid = refl
type_of-into_bits inner_node = refl
type_of-into_bits leaf_node_empty = refl
type_of-into_bits leaf_node_with_value = refl

into_bits-lt : (t : NodeType) → node_type_into_bits t < 4
unfolding node_type_into_bits
into_bits-lt invalid = omega arith
into_bits-lt inner_node = omega arith
into_bits-lt leaf_node_empty = omega arith
into_bits-lt leaf_node_with_value = omega arith

into_bits-child_of : (n : ℕ) → n < 4 → child_link_into_bits (child_of n) ≡ n
unfolding child_link_into_bits
into_bits-child_of zero h = refl
into_bits-child_of (suc zero) h = refl
into_bits-child_of (suc (suc zero)) h = refl
into_bits-child_of (suc (suc (suc n))) h = omega arith

abbrev top_of : ℕ → TopNode
top_of b = record {
  type_flag = type_of (b / 64 % 4);
  container_type = b / 32 % 2;
  delta = b / 4 % 8;
  jump_successor = b / 2 % 2;
  jump_table = b % 2;
}

abbrev with_type : ℕ → NodeType → ℕ
with_type b t = node_type_into_bits t * 64 + b % 64

top_of-with_type :
    (b : ℕ) (t : NodeType) → top_of (with_type b t) ≡ record (top_of b) { type_flag = t }
top_of-with_type b t = rw (e1, e2, e3, e4, e5, type_of-into_bits t) refl
  where
    e1 : with_type b t / 64 % 4 ≡ node_type_into_bits t
    e1 = omega (arith, into_bits-lt t)

    e2 : with_type b t / 32 % 2 ≡ b / 32 % 2
    e2 = omega arith

    e3 : with_type b t / 4 % 8 ≡ b / 4 % 8
    e3 = omega arith

    e4 : with_type b t / 2 % 2 ≡ b / 2 % 2
    e4 = omega arith

    e5 : with_type b t % 2 ≡ b % 2
    e5 = omega arith

abbrev bitfields : Bitfields
bitfields = record {
  top = top_of;
  sub = λ b. record {
    type_flag = type_of (b / 64 % 4);
    container_type = b / 32 % 2;
    delta = b / 4 % 8;
    child_container = child_of (b % 4);
  };
  with_type_flag = with_type;
  pc_size = λ b. b / 2 % 128;
  pc_value_present = λ b. b % 2;
  same_type = λ b. refl;
  same_delta = λ b. refl;
  aliased = λ b. into_bits-child_of (b % 4) (omega arith) ∙ omega arith;
  flags = λ b. (omega arith, omega arith);
  top-with_type_flag = top_of-with_type;
}

-- A top node with a value, a delta of 0 and both flags; then zeros.
abbrev top_memory : Memory
top_memory i = if i == 0 then 195 else 0

top_node_layout_example :
    (get_offset_jump bitfields top_memory ≡ 1 + key_size (top_of 195))
    × (get_offset_jump_table bitfields top_memory ≡ get_offset_jump bitfields top_memory + 1 * 2)
    × (get_offset_to_next_node bitfields top_memory
        ≡ get_offset_jump_table bitfields top_memory + 1 * 30 + leaf_size leaf_node_with_value)
    × (get_offset_node_value bitfields top_memory
          + leaf_size leaf_node_with_value
          + key_size (top_of 195)
        ≡ get_offset_to_next_node bitfields top_memory)
top_node_layout_example = top_node_layout bitfields top_memory refl

-- An inner sub node without a delta that links a container.
abbrev sub_memory : Memory
sub_memory i = if i == 0 then 97 else 0

sub_node_link_overhead_example :
    get_offset_to_next_node bitfields sub_memory ≡ 1 + key_size (top_of 97) + 8 + 30
sub_node_link_overhead_example = sub_node_link_overhead bitfields sub_memory refl refl

abbrev context : OperationContext
context = record {
  operation_done = 0;
  performed_put = 0;
  pathcompressed_child = 0;
  return_value = [];
  input_value = none;
}

abbrev value : List ℕ
value = 1 ∷ 2 ∷ 3 ∷ replicate 5 0

call_top_node-set_node_value_example :
    (o : ℕ) × (1 ≤ o)
    × (call_top_node bitfields
          (set_node_value bitfields top_memory (record context { input_value = some value })).0
          6
        ≡ called 7 (some o))
    × (read_bytes
          (set_node_value bitfields top_memory (record context { input_value = some value })).0
          (4 * o)
          8
        ≡ value)
    × ((i : ℕ)
        → 1 ≤ i
        → i < 4 * o
        → (set_node_value bitfields top_memory (record context { input_value = some value })).0 i
          ≡ top_memory i)
call_top_node-set_node_value_example =
    call_top_node-set_node_value bitfields top_memory context value 6 refl

-- A container with one jump table, whose keys are all 9.
abbrev container : Container
container = record { size = 64; free_bytes = 10; jump_table = 1; split_delay = 0 }

abbrev entries : List JumpEntry
entries = replicate 7 (record { offset = 100; key = 9 })
