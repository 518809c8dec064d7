-- ===== src/Dict.antt =====
-- crates/embedmind-core/src/index/dict.rs: the dictionary of the indexes, a B-tree over pages that
-- maps byte strings to bodies of any length. Its field readers are in Dict/Fields, nodes and their
-- pages in Dict/Codec, look-ups in Dict/Get and insertions in Dict/Upsert.
pub mod Fields
pub mod Codec
pub mod Get
pub mod Chain
pub mod Upsert
pub mod Split
use embedmind.Prelude.{ℕ, ◌+◌, ◌-◌, ◌/◌, Bool, List, length, ◌==◌}
use embedmind.Bytes.{Bytes}
use embedmind.Format.{page_header_len, page_trailer_len}
use embedmind.Format.Page.{PageType, to_u8}

pub record DictSpec : Type 0 where
  pub dict : PageType
  pub overflow : PageType
  pub max_key_len : ℕ

abbrev pub node_meta : ℕ
node_meta = 0

abbrev pub node_inner : ℕ
node_inner = 1

abbrev pub node_leaf : ℕ
node_leaf = 2

abbrev pub value_inline : ℕ
value_inline = 0

abbrev pub value_overflow : ℕ
value_overflow = 1

abbrev pub max_depth : ℕ
max_depth = 64

pub data Value : Type 0 where
  inline : Bytes → Value
  overflow : ℕ → ℕ → Value

-- `Value::encoded_len`
abbrev pub encoded_len : Value → ℕ
encoded_len (inline body) = 1 + 4 + length body
encoded_len (overflow total_len first_page) = 1 + 4 + 8

pub record LeafEntry : Type 0 where
  pub key : Bytes
  pub value : Value

-- `LeafEntry::footprint`
abbrev pub footprint : LeafEntry → ℕ
footprint e = 2 + length e.key + encoded_len e.value

pub record InnerNode : Type 0 where
  pub entries : List (Bytes × ℕ)
  pub rightmost : ℕ

pub data Node : Type 0 where
  leaf : List LeafEntry → Node
  inner : InnerNode → Node

abbrev pub usable : ℕ → ℕ
usable page_size = page_size - page_header_len - page_trailer_len

abbrev pub max_entry_footprint : ℕ → ℕ
max_entry_footprint page_size = usable page_size / 4

abbrev pub max_inline_body : DictSpec → ℕ → ℕ
max_inline_body spec page_size = max_entry_footprint page_size - (2 + spec.max_key_len + 1 + 4)

abbrev pub overflow_capacity : ℕ → ℕ
overflow_capacity page_size = page_size - page_header_len - page_trailer_len

-- Equality of page types, which their bytes tell apart.
unfoldable pub same_type : PageType → PageType → Bool
same_type a b = to_u8 a == to_u8 b
