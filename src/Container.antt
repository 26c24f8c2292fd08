-- ===== src/Container.antt =====
-- hyperion/components/container.rs and jump_table.rs: the size of a container and the entries of
-- its jump table. A bitfield is a record of the fields that the struct declares.
pub mod Laws
use hyperion_rust.Common.{
  ℕ, zero, suc, ◌+◌, ◌-◌, ◌*◌, ◌/◌, ◌%◌, ◌==◌, ltb, if◌then◌else◌, Bool, not, List, get_or, set,
}

pub record Container : Type 0 where
  pub size : ℕ
  pub free_bytes : ℕ
  pub jump_table : ℕ
  pub split_delay : ℕ

-- A container inside another one.
pub record EmbeddedContainer : Type 0 where
  pub size : ℕ

-- `SubNodeJumpTableEntry`: 24 bits of offset and 8 of key.
pub record JumpEntry : Type 0 where
  pub offset : ℕ
  pub key : ℕ

abbrev pub no_entry : JumpEntry
no_entry = record { offset = 0; key = 0 }

abbrev pub toplevel_jumptable_entries : ℕ
toplevel_jumptable_entries = 7

-- `size_of::<SubNodeJumpTable>()`: seven entries of four bytes.
unfoldable pub get_jump_table_size : Container → ℕ
get_jump_table_size c = c.jump_table * 28

unfoldable pub get_jump_table_entry_count : Container → ℕ
get_jump_table_entry_count c = c.jump_table * toplevel_jumptable_entries

-- `size_of::<Container>()`, and `size_of::<ContainerLink>()`: a packed pointer of five bytes that is
-- aligned to eight.
abbrev pub container_head_size : ℕ
container_head_size = 4

abbrev pub container_link_size : ℕ
container_link_size = 8

-- The jump table stands behind the head of the container at an address.
abbrev pub get_jump_table_pointer : ℕ → ℕ
get_jump_table_pointer self = self + container_head_size

abbrev pub set_free_size_left : Container → ℕ → Container
set_free_size_left c size_left = record c { free_bytes = size_left % 256 }

-- The new size. The increment is the one of the global configuration.
unfoldable pub incremented_size : ℕ → Container → ℕ → ℕ
incremented_size container_increment c required_minimum =
    let whole = required_minimum / container_increment in
    let factor = if not (required_minimum % container_increment == 0) then whole + 1 else whole in
    c.size + factor * container_increment

-- The setter stores 19 bits.
abbrev pub increment_container_size : ℕ → Container → ℕ → Container
increment_container_size container_increment c required_minimum = record c {
  size = incremented_size container_increment c required_minimum % 524288;
}

-- One entry moved: `usage_delta as u32` is added in 32 bits, and the setter stores 24.
abbrev pub move_entry : ℕ → JumpEntry → JumpEntry
move_entry usage_delta e = record e { offset = (e.offset + usage_delta) % 4294967296 % 16777216 }

-- The loop from the last entry down: it returns at the first entry whose key is not above.
pub update_entries : ℕ → ℕ → ℕ → List JumpEntry → List JumpEntry
update_entries zero top_node_key usage_delta entries = entries
update_entries (suc i) top_node_key usage_delta entries =
    let rest =
      update_entries i top_node_key usage_delta
        (set entries i (move_entry usage_delta (get_or entries i no_entry))) in
    if ltb top_node_key (get_or entries i no_entry).key then rest else entries

-- `entries` are those of the root container, `usage_delta` its u32.
unfoldable pub update_top_node_jumptable_entries :
    Container → ℕ → ℕ → List JumpEntry → List JumpEntry
update_top_node_jumptable_entries c top_node_key usage_delta entries =
    if c.jump_table == 0
    then entries
    else update_entries (toplevel_jumptable_entries * c.jump_table) top_node_key usage_delta entries
