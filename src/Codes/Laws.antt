-- ===== src/Codes/Laws.antt =====
-- The codes of the enums: every value comes back from its bits, and which numbers are codes.
use hyperion_rust.Common.{◌<◌, ◌≤◌, ◌≡◌, refl, some, arith}
use hyperion_rust.Codes.{
  NodeType, invalid, inner_node, leaf_node_empty, leaf_node_with_value, ChildLinkType, no_child,
  link, embedded_container, path_compressed, OperationCommand, put, get, range, delete,
  KeyProcessingId, no_processing, uniform_key_distribution_single_thread,
  uniform_key_distribution_multi_thread, english_language_data_memory,
  english_language_data_performance, node_type_into_bits, node_type_from_bits, child_link_into_bits,
  child_link_from_bits, command_into_bits, command_from_bits, key_processing_into_bits,
  key_processing_from_bits,
}

-- Reading the bits of a node type, of a link type or of a command gives it back, and the bits are
-- below 4, so that they fit the two bits of the fields that hold them.
pub from_bits-into_bits :
    ((t : NodeType)
      → (node_type_from_bits (node_type_into_bits t) ≡ some t) × (node_type_into_bits t < 4))
    × ((c : ChildLinkType)
        → (child_link_from_bits (child_link_into_bits c) ≡ some c) × (child_link_into_bits c < 4))
    × ((o : OperationCommand)
        → (command_from_bits (command_into_bits o) ≡ some o) × (command_into_bits o < 4))
unfolding node_type_into_bits node_type_from_bits child_link_into_bits child_link_from_bits
    command_into_bits command_from_bits
from_bits-into_bits = (types, links, commands)
  where
    types :
        (t : NodeType)
        → (node_type_from_bits (node_type_into_bits t) ≡ some t) × (node_type_into_bits t < 4)
    types invalid = (refl, omega arith)
    types inner_node = (refl, omega arith)
    types leaf_node_empty = (refl, omega arith)
    types leaf_node_with_value = (refl, omega arith)

    links :
        (c : ChildLinkType)
        → (child_link_from_bits (child_link_into_bits c) ≡ some c) × (child_link_into_bits c < 4)
    links no_child = (refl, omega arith)
    links link = (refl, omega arith)
    links embedded_container = (refl, omega arith)
    links path_compressed = (refl, omega arith)

    commands :
        (o : OperationCommand)
        → (command_from_bits (command_into_bits o) ≡ some o) × (command_into_bits o < 4)
    commands put = (refl, omega arith)
    commands get = (refl, omega arith)
    commands range = (refl, omega arith)
    commands delete = (refl, omega arith)

-- Reading the bits of a preprocessing strategy gives it back, and the code of the strategy for
-- English text with performance as its aim is 4, which the two bits of the header's field do not hold.
pub key_processing-from_bits-into_bits :
    ((k : KeyProcessingId) → key_processing_from_bits (key_processing_into_bits k) ≡ some k)
    × (4 ≤ key_processing_into_bits english_language_data_performance)
unfolding key_processing_into_bits key_processing_from_bits
key_processing-from_bits-into_bits = (back, omega arith)
  where
    back : (k : KeyProcessingId) → key_processing_from_bits (key_processing_into_bits k) ≡ some k
    back no_processing = refl
    back uniform_key_distribution_single_thread = refl
    back uniform_key_distribution_multi_thread = refl
    back english_language_data_memory = refl
    back english_language_data_performance = refl
