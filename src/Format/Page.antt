-- ===== src/Format/Page.antt =====
-- crates/embedmind-core/src/format.rs, `PageType` and `PageHeader`: the 16 bytes at the start of
-- every page but the first.
pub mod Laws
use embedmind.Prelude.{
  ℕ, ◌+◌, ◌≤◌, Bool, Option, none, some, List, [], ◌∷◌, length, get_elem?, ltb, ◌==◌, if◌then◌else◌,
}
use embedmind.Bytes.{Bytes, read_u32, read_u64, write_bytes, write_u32, write_u64}
use embedmind.Format.{page_header_len}
use mathlib.Core.Option

pub data PageType : Type 0 where
  btree_inner btree_leaf vector hnsw_node hnsw_meta freelist overflow : PageType
  fts_dict fts_postings graph_dict graph_overflow filter_meta filter_symbols : PageType

-- `page_type as u8`
unfoldable pub to_u8 : PageType → ℕ
to_u8 btree_inner = 0x01
to_u8 btree_leaf = 0x02
to_u8 vector = 0x03
to_u8 hnsw_node = 0x04
to_u8 hnsw_meta = 0x05
to_u8 freelist = 0x06
to_u8 overflow = 0x07
to_u8 fts_dict = 0x08
to_u8 fts_postings = 0x09
to_u8 graph_dict = 0x0A
to_u8 graph_overflow = 0x0B
to_u8 filter_meta = 0x0C
to_u8 filter_symbols = 0x0D

unfoldable pub from_u8 : ℕ → Option PageType
from_u8 v =
    if v == 0x01
    then some btree_inner
    else if v == 0x02
    then some btree_leaf
    else if v == 0x03
    then some vector
    else if v == 0x04
    then some hnsw_node
    else if v == 0x05
    then some hnsw_meta
    else if v == 0x06
    then some freelist
    else if v == 0x07
    then some overflow
    else if v == 0x08
    then some fts_dict
    else if v == 0x09
    then some fts_postings
    else if v == 0x0A
    then some graph_dict
    else if v == 0x0B
    then some graph_overflow
    else if v == 0x0C
    then some filter_meta
    else if v == 0x0D
    then some filter_symbols
    else none

pub record PageHeader : Type 0 where
  pub page_type : PageType
  pub entry_count : ℕ
  pub next_page : ℕ

unfoldable pub encode_into : PageHeader → Bytes → Bytes
encode_into h page =
    write_u64 (write_u32 (write_bytes page 0 (to_u8 h.page_type ∷ 0 ∷ 0 ∷ 0 ∷ [])) 4 h.entry_count)
      8 h.next_page

infixl 5 ◌>>=◌
abbrev ◌>>=◌ : {A B : Type 0} → Option A → (A → Option B) → Option B
none >>= f = none
some a >>= f = f a

unfoldable pub decode : Bytes → Option PageHeader
decode page = if ltb (length page) page_header_len then none else do
  first ← get_elem? page 0
  page_type ← from_u8 first
  entry_count ← read_u32 page 4
  next_page ← read_u64 page 8
  some (record { page_type = page_type; entry_count = entry_count; next_page = next_page })
