-- ===== src/Contexts.antt =====
-- hyperion/components/context.rs: what the traversal of a container keeps, and how it is flushed;
-- with `register_jump_context` of node_header.rs. A reference or an atomic pointer
-- is the address that it holds.
use hyperion_rust.Common.{List, ℕ, ◌==◌, if◌then◌else◌, Option, none, some}
use hyperion_rust.Allocator.{Run, done, ◌>>=◌}
use hyperion_rust.Pointer.{HyperionPointer}
use hyperion_rust.Codes.{OperationCommand}
use hyperion_rust.Core.Chunks.{unwrap}
use hyperion_rust.NodeHeader.{Bitfields, Memory, as_top_node}

-- Of a path-compressed node: the size of the rest of the key, and whether a value follows.
pub record PathCompressedNodeHeader : Type 0 where
  pub size : ℕ
  pub value_present : ℕ

pub record ContainerTraversalHeader : Type 0 where
  pub node_type : ℕ
  pub two_chars : ℕ
  pub in_first_char_scope : ℕ
  pub container_type : ℕ
  pub last_top_char_set : ℕ
  pub last_sub_char_set : ℕ
  pub end_operation : ℕ
  pub force_shift_before_insert : ℕ

pub record ContainerTraversalContext : Type 0 where
  pub header : ContainerTraversalHeader
  pub last_top_char_seen : ℕ
  pub last_sub_char_seen : ℕ
  pub current_container_offset : ℕ
  pub safe_offset : ℕ
  pub first_char : ℕ
  pub second_char : ℕ

-- `ContainerTraversalContext::flush`: the flags for a character that was seen stay.
abbrev pub flush_traversal : ContainerTraversalContext → ContainerTraversalContext
flush_traversal c = record c {
  header = record (c.header) { in_first_char_scope = 0 };
  last_top_char_seen = 0;
  last_sub_char_seen = 0;
  current_container_offset = 0;
}

pub record JumpTableSubContext : Type 0 where
  pub top_node : ℕ
  pub root_container_sub_char_set : ℕ
  pub root_container_sub_char : ℕ

abbrev pub flush_sub_context : JumpTableSubContext → JumpTableSubContext
flush_sub_context c = record {
  top_node = 0;
  root_container_sub_char_set = 0;
  root_container_sub_char = 0;
}

pub record JumpContext : Type 0 where
  pub predecessor : ℕ
  pub top_node_predecessor_offset_absolute : ℕ
  pub sub_nodes_seen : ℕ
  pub top_node_key : ℕ

abbrev pub flush_jump : JumpContext → JumpContext
flush_jump c = record {
  predecessor = 0;
  top_node_predecessor_offset_absolute = 0;
  sub_nodes_seen = 0;
  top_node_key = 0;
}

-- A container of the path so far: its offset and the pointer to it.
pub record TraversalContext : Type 0 where
  pub offset : ℕ
  pub hyperion_pointer : HyperionPointer

-- What is taken out of a path-compressed node.
pub record PathCompressedEjectionContext : Type 0 where
  pub node_value : ℕ
  pub partial_key : List ℕ
  pub pec_valid : ℕ
  pub path_compressed_node_header : PathCompressedNodeHeader

pub record ContainerInjectionContext : Type 0 where
  pub root_container : ℕ
  pub container_pointer : ℕ

pub record EmbeddedTraversalContext : Type 0 where
  pub root_container : ℕ
  pub next_embedded_container : ℕ
  pub embedded_stack : List ℕ
  pub next_embedded_container_offset : ℕ
  pub embedded_container_depth : ℕ
  pub root_container_pointer : ℕ

pub record RangeQueryContext : Type 0 where
  pub key_begin : ℕ
  pub current_key : ℕ
  pub arena : ℕ
  pub current_stack_depth : ℕ
  pub current_key_offset : ℕ
  pub key_len : ℕ
  pub do_report : ℕ
  pub stack : List (Option TraversalContext)

pub record OperationContextHeader : Type 0 where
  pub command : OperationCommand
  pub next_container_valid : ℕ
  pub operation_done : ℕ
  pub performed_put : ℕ
  pub pathcompressed_child : ℕ

pub record OperationContext : Type 0 where
  pub header : OperationContextHeader
  pub chained_pointer_hook : ℕ
  pub key_len_left : ℕ
  pub key : Option ℕ
  pub jump_context : Option JumpContext
  pub root_container_entry : Option ℕ
  pub embedded_traversal_context : Option EmbeddedTraversalContext
  pub jump_table_sub_context : Option JumpTableSubContext
  pub next_container_pointer : Option ℕ
  pub arena : Option ℕ
  pub path_compressed_ejection_context : Option PathCompressedEjectionContext
  pub return_value : Option ℕ
  pub input_value : Option ℕ
  pub container_injection_context : Option ContainerInjectionContext

unfoldable pub flush_jump_context : OperationContext → OperationContext
flush_jump_context c = elim c.jump_context [
  | none ↦ c
  | some j ↦ record c { jump_context = some (flush_jump j) }
]

unfoldable pub flush_jump_table_sub_context : OperationContext → OperationContext
flush_jump_table_sub_context c = elim c.jump_table_sub_context [
  | none ↦ c
  | some s ↦ record c { jump_table_sub_context = some (flush_sub_context s) }
]

-- These panic if there is none.
abbrev pub get_return_value_mut : OperationContext → Run ℕ
get_return_value_mut c = unwrap c.return_value

abbrev pub get_input_value_mut : OperationContext → Run ℕ
get_input_value_mut c = unwrap c.input_value

abbrev pub get_jump_context_mut : OperationContext → Run JumpContext
get_jump_context_mut c = unwrap c.jump_context

abbrev pub get_key_as_mut : OperationContext → Run ℕ
get_key_as_mut c = unwrap c.key

module _ (f : Bitfields) where
  -- `register_jump_context` of the node at an address.
  unfoldable pub register_jump_context :
      Memory → ℕ → ContainerTraversalContext → OperationContext → Run OperationContext
  register_jump_context m self t c = get_jump_context_mut c >>= λ j. done (record c {
    jump_context = some (
        if (as_top_node f m).jump_successor == 1
        then record j {
          predecessor = self;
          sub_nodes_seen = 0;
          top_node_predecessor_offset_absolute = t.current_container_offset;
        }
        else record j { predecessor = 0 });
  })
