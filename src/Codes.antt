-- ===== src/Codes.antt =====
-- The enums that a bitfield stores in two bits: hyperion/components/node.rs, sub_node.rs,
-- context.rs and hyperion/preprocessor/key_preprocessor.rs.
pub mod Laws
use hyperion_rust.Common.{ℕ, zero, suc, Option, none, some}

pub data NodeType : Type 0 where
  invalid inner_node leaf_node_empty leaf_node_with_value : NodeType

pub data ChildLinkType : Type 0 where
  no_child link embedded_container path_compressed : ChildLinkType

pub data OperationCommand : Type 0 where
  put get range delete : OperationCommand

pub data KeyProcessingId : Type 0 where
  no_processing : KeyProcessingId
  uniform_key_distribution_single_thread uniform_key_distribution_multi_thread : KeyProcessingId
  english_language_data_memory english_language_data_performance : KeyProcessingId

unfoldable pub node_type_into_bits : NodeType → ℕ
node_type_into_bits invalid = 0
node_type_into_bits inner_node = 1
node_type_into_bits leaf_node_empty = 2
node_type_into_bits leaf_node_with_value = 3

-- Here and below, `none` is the panic on an undefined value.
unfoldable pub node_type_from_bits : ℕ → Option NodeType
node_type_from_bits zero = some invalid
node_type_from_bits (suc zero) = some inner_node
node_type_from_bits (suc (suc zero)) = some leaf_node_empty
node_type_from_bits (suc (suc (suc zero))) = some leaf_node_with_value
node_type_from_bits (suc (suc (suc (suc n)))) = none

unfoldable pub child_link_into_bits : ChildLinkType → ℕ
child_link_into_bits no_child = 0
child_link_into_bits link = 1
child_link_into_bits embedded_container = 2
child_link_into_bits path_compressed = 3

unfoldable pub child_link_from_bits : ℕ → Option ChildLinkType
child_link_from_bits zero = some no_child
child_link_from_bits (suc zero) = some link
child_link_from_bits (suc (suc zero)) = some embedded_container
child_link_from_bits (suc (suc (suc zero))) = some path_compressed
child_link_from_bits (suc (suc (suc (suc n)))) = none

unfoldable pub command_into_bits : OperationCommand → ℕ
command_into_bits put = 0
command_into_bits get = 1
command_into_bits range = 2
command_into_bits delete = 3

unfoldable pub command_from_bits : ℕ → Option OperationCommand
command_from_bits zero = some put
command_from_bits (suc zero) = some get
command_from_bits (suc (suc zero)) = some range
command_from_bits (suc (suc (suc zero))) = some delete
command_from_bits (suc (suc (suc (suc n)))) = none

unfoldable pub key_processing_into_bits : KeyProcessingId → ℕ
key_processing_into_bits no_processing = 0
key_processing_into_bits uniform_key_distribution_single_thread = 1
key_processing_into_bits uniform_key_distribution_multi_thread = 2
key_processing_into_bits english_language_data_memory = 3
key_processing_into_bits english_language_data_performance = 4

unfoldable pub key_processing_from_bits : ℕ → Option KeyProcessingId
key_processing_from_bits zero = some no_processing
key_processing_from_bits (suc zero) = some uniform_key_distribution_single_thread
key_processing_from_bits (suc (suc zero)) = some uniform_key_distribution_multi_thread
key_processing_from_bits (suc (suc (suc zero))) = some english_language_data_memory
key_processing_from_bits (suc (suc (suc (suc zero)))) = some english_language_data_performance
key_processing_from_bits (suc (suc (suc (suc (suc n))))) = none
