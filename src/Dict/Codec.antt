-- ===== src/Dict/Codec.antt =====
-- crates/embedmind-core/src/index/dict.rs: `decode_node`, `encode_leaf` and `encode_inner`.
pub mod Layout
pub mod Puts
pub mod Values
pub mod Pages
pub mod Leaf
pub mod Inner
use embedmind.Prelude.{
  ℕ, zero, suc, ◌+◌, ◌-◌, Bool, true, false, ◌||◌, not, Option, none, some, List, [], ◌∷◌, length,
  replicate, get_elem?, ltb, ◌==◌, if◌then◌else◌,
}
use embedmind.Error.{Result, ok, err, malformed_page, guard, ok_or, ◌>>=◌, ◌>>◌}
use embedmind.Bytes.{Bytes}
use embedmind.Format.{Xxh3, page_header_len, page_trailer_len, stamp_page_checksum}
use embedmind.Format.Page as P
use embedmind.Format.Page.{PageHeader, encode_into}
use embedmind.Btree.Codec.{in_order, is_nil}
use embedmind.Dict.{
  DictSpec, node_inner, node_leaf, value_inline, value_overflow, Value, inline, overflow, LeafEntry,
  footprint, InnerNode, Node, leaf, inner, same_type,
}
use embedmind.Dict.Fields.{
  get_u32, get_u64, get_bytes_u16, get_bytes_u32, Cursor, put_u8, put_u32, put_u64, put_bytes_u16,
  put_bytes_u32,
}

-- The value behind a key, by its tag.
unfoldable pub decode_value : Bytes → ℕ → ℕ → ℕ → ℕ → Result (Value × ℕ)
decode_value page off content_end page_no tag =
    if tag == value_inline
    then (do
      body ← get_bytes_u32 page off content_end page_no "dict inline value"
      ok (inline body.0, body.1))
    else if tag == value_overflow
    then (do
      total_len ← get_u32 page off page_no
      first_page ← get_u64 page total_len.1 page_no
      guard (not (first_page.0 == 0)) (malformed_page page_no "dict null overflow page")
      ok (overflow total_len.0 first_page.0, first_page.1))
    else err (malformed_page page_no "dict value tag")

-- The loop over the entries of a leaf.
unfoldable pub decode_entries : ℕ → Bytes → ℕ → ℕ → ℕ → Option Bytes → Result (List LeafEntry)
unfolding decode_value
decode_entries zero page content_end page_no off prev = ok []
decode_entries (suc n) page content_end page_no off prev = do
  key ← get_bytes_u16 page off content_end page_no "dict leaf key"
  guard (in_order prev key.0) (malformed_page page_no "unsorted dict leaf keys")
  tag ← ok_or (get_elem? page key.1) (malformed_page page_no "dict value tag")
  value ← decode_value page (key.1 + 1) content_end page_no tag
  rest ← decode_entries n page content_end page_no value.1 (some key.0)
  ok (record { key = key.0; value = value.0 } ∷ rest)

-- The loop over the entries of an inner node.
unfoldable pub decode_children : ℕ → Bytes → ℕ → ℕ → ℕ → Option Bytes → Result (List (Bytes × ℕ))
decode_children zero page content_end page_no off prev = ok []
decode_children (suc n) page content_end page_no off prev = do
  key ← get_bytes_u16 page off content_end page_no "dict inner key"
  guard (in_order prev key.0) (malformed_page page_no "unsorted dict inner keys")
  child ← get_u64 page key.1 page_no
  guard (not (child.0 == 0)) (malformed_page page_no "dict null child")
  rest ← decode_children n page content_end page_no child.1 (some key.0)
  ok ((key.0, child.0) ∷ rest)

unfoldable pub decode_inner : Bytes → ℕ → ℕ → ℕ → ℕ → Result Node
decode_inner page content_end page_no off n = do
  guard (not (n == 0)) (malformed_page page_no "empty dict inner node")
  rightmost ← get_u64 page off page_no
  guard (not (rightmost.0 == 0)) (malformed_page page_no "dict null rightmost child")
  entries ← decode_children n page content_end page_no rightmost.1 none
  ok (inner (record { entries = entries; rightmost = rightmost.0 }))

unfoldable pub decode_leaf : Bytes → ℕ → ℕ → ℕ → ℕ → Result Node
decode_leaf page content_end page_no off n = do
  entries ← decode_entries n page content_end page_no off none
  ok (leaf entries)

-- `decode_node`
unfoldable pub decode_node : Bytes → ℕ → DictSpec → Result Node
unfolding decode_inner decode_leaf
decode_node page page_no spec = do
  header ← ok_or (P.decode page) (malformed_page page_no "dict page header")
  guard (same_type header.page_type spec.dict) (malformed_page page_no "not a dict page")
  let content_end = length page - page_trailer_len
  kind ← ok_or (get_elem? page page_header_len) (malformed_page page_no "dict node kind")
  if kind == node_leaf
      then decode_leaf page content_end page_no (page_header_len + 1) header.entry_count
      else if kind == node_inner
      then decode_inner page content_end page_no (page_header_len + 1) header.entry_count
      else err (malformed_page page_no "unexpected dict node kind")

-- A value as `encode_leaf` writes it.
unfoldable pub put_value : Value → Cursor → Cursor
put_value (inline body) c = put_bytes_u32 body (put_u8 value_inline c)
put_value (overflow total_len first_page) c =
    put_u64 first_page (put_u32 total_len (put_u8 value_overflow c))

unfoldable pub put_entries : List LeafEntry → Cursor → Cursor
unfolding put_value
put_entries [] c = c
put_entries (e ∷ es) c = put_entries es (put_value e.value (put_bytes_u16 e.key c))

abbrev pub footprints : List LeafEntry → ℕ
footprints [] = 0
footprints (e ∷ es) = footprint e + footprints es

-- An empty page of the dictionary with its header, and the cursor behind it.
unfoldable pub fresh_page : DictSpec → ℕ → ℕ → Cursor
fresh_page spec page_size entry_count =
    let zeros : Bytes = replicate page_size 0 in
    (
      encode_into (record { page_type = spec.dict; entry_count = entry_count; next_page = 0 })
          zeros,
      page_header_len,
    )

-- `encode_leaf`
unfoldable pub encode_leaf : Xxh3 → List LeafEntry → ℕ → DictSpec → Option Bytes
encode_leaf x entries page_size spec =
    if ltb (page_size - page_trailer_len) (page_header_len + (1 + footprints entries))
    then none
    else let page = fresh_page spec page_size (length entries) in
      some (stamp_page_checksum x (put_entries entries (put_u8 node_leaf page)).0)

unfoldable pub put_children : List (Bytes × ℕ) → Cursor → Cursor
put_children [] c = c
put_children ((key, child) ∷ es) c = put_children es (put_u64 child (put_bytes_u16 key c))

abbrev pub separators_len : List (Bytes × ℕ) → ℕ
separators_len [] = 0
separators_len ((key, child) ∷ es) = 2 + length key + 8 + separators_len es

-- `encode_inner`
unfoldable pub encode_inner : Xxh3 → InnerNode → ℕ → DictSpec → Option Bytes
encode_inner x node page_size spec =
    if is_nil node.entries
      || ltb (page_size - page_trailer_len)
          (page_header_len + (1 + 8 + separators_len node.entries))
    then none
    else let page = fresh_page spec page_size (length node.entries) in
      some (
        stamp_page_checksum x
          (put_children node.entries (put_u64 node.rightmost (put_u8 node_inner page))).0)
