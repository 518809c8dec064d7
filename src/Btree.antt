-- ===== src/Btree.antt =====
-- crates/embedmind-core/src/storage/btree.rs: the tree of records. A key is the 16 bytes of an
-- identifier, compared as bytes. Nodes and their pages are in Btree/Codec, look-ups in
-- Btree/Lookup, insertions and long values in Btree/Insert.
pub mod Codec
pub mod Leaf
pub mod LeafPage
pub mod Inner
pub mod Split
pub mod Search
pub mod Lookup
pub mod Tree
pub mod Body
pub mod Pieces
pub mod Insert
pub mod Chains
pub mod Overflow
pub mod First
pub mod Session
use embedmind.Prelude.{ℕ, ◌+◌, ◌-◌, ◌*◌, ◌/◌, Bool, Option, none, some, List, [], ◌∷◌, ◌++◌, length}
use embedmind.Error.{Error, malformed_page}
use embedmind.Bytes.{Bytes, le_bytes}
use embedmind.Format.{page_header_len, page_trailer_len}

-- How deep a look-up goes.
abbrev pub max_depth : ℕ
max_depth = 64

abbrev pub slot_len : ℕ
slot_len = 20

abbrev pub inner_entry_len : ℕ
inner_entry_len = 24

abbrev pub cell_inline : ℕ
cell_inline = 0

abbrev pub cell_overflow : ℕ
cell_overflow = 1

abbrev pub overflow_cell_len : ℕ
overflow_cell_len = 13

abbrev pub usable : ℕ → ℕ
usable page_size = page_size - page_header_len - page_trailer_len

abbrev pub max_entry_footprint : ℕ → ℕ
max_entry_footprint page_size = usable page_size / 4

abbrev pub max_inline_value : ℕ → ℕ
max_inline_value page_size = max_entry_footprint page_size - slot_len - 1

abbrev pub overflow_capacity : ℕ → ℕ
overflow_capacity page_size = usable page_size

pub data Cell : Type 0 where
  inline : Bytes → Cell
  overflow : ℕ → ℕ → Cell

-- `Cell::encoded_len`
abbrev pub encoded_len : Cell → ℕ
encoded_len (inline v) = 1 + length v
encoded_len (overflow total_len first_page) = overflow_cell_len

pub record LeafEntry : Type 0 where
  pub key : Bytes
  pub cell : Cell

-- `LeafEntry::footprint`
abbrev pub footprint : LeafEntry → ℕ
footprint e = slot_len + encoded_len e.cell

-- The sum of the footprints of entries.
abbrev pub total_footprint : List LeafEntry → ℕ
total_footprint [] = 0
total_footprint (e ∷ es) = footprint e + total_footprint es

-- The entries are `(separator, child)`; the child covers the keys up to the separator.
pub record InnerNode : Type 0 where
  pub entries : List (Bytes × ℕ)
  pub rightmost : ℕ

pub data Node : Type 0 where
  leaf : List LeafEntry → Node
  inner : InnerNode → Node
