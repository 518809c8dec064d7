-- ===== src/Btree/Codec.antt =====
-- crates/embedmind-core/src/storage/btree.rs: `decode_node`, `decode_cell`, `encode_leaf` and
-- `encode_inner`.
use embedmind.Prelude.{
  ℕ, zero, suc, ◌+◌, ◌-◌, ◌*◌, Bool, true, false, ◌||◌, ◌&&◌, not, Option, none, some, List, [],
  ◌∷◌, ◌++◌, length, replicate, ltb, leb, ◌==◌, if◌then◌else◌,
}
use embedmind.Error.{Result, ok, err, malformed_page, guard, ok_or, ◌>>=◌, ◌>>◌}
use embedmind.Bytes.{Bytes, le_bytes, get_range, read_u16, read_u32, read_u64, write_bytes}
use embedmind.Bytes.Order.{bytes_lt}
use embedmind.Format.{page_header_len, page_trailer_len}
use embedmind.Format.Page as P
use embedmind.Format.Page.{PageType, btree_leaf, btree_inner, PageHeader, encode_into}
use embedmind.Record.{max_record_len}
use embedmind.Btree.{
  slot_len, inner_entry_len, cell_inline, cell_overflow, overflow_cell_len, Cell, inline, overflow,
  encoded_len, LeafEntry, InnerNode, Node, leaf, inner,
}

-- `decode_cell`
unfoldable pub decode_cell : Bytes → ℕ → Result Cell
decode_cell [] page_no = err (malformed_page page_no "cell tag")
decode_cell (tag ∷ rest) page_no =
    if tag == cell_inline
    then ok (inline rest)
    else if tag == cell_overflow && suc (length rest) == overflow_cell_len
    then (do
      total_len ← ok_or (read_u32 (tag ∷ rest) 1) (malformed_page page_no "short read")
      first_page ← ok_or (read_u64 (tag ∷ rest) 5) (malformed_page page_no "short read")
      guard (not (first_page == 0 || ltb max_record_len total_len))
          (malformed_page page_no "overflow cell")
      ok (overflow total_len first_page))
    else err (malformed_page page_no "cell tag")

-- `prev.is_some_and(|p| p >= key)`
unfoldable pub in_order : Option Bytes → Bytes → Bool
in_order none key = true
in_order (some prev) key = bytes_lt prev key

-- The loop over the slots of a leaf.
unfoldable pub decode_slots : ℕ → Bytes → ℕ → ℕ → ℕ → ℕ → Option Bytes → Result (List LeafEntry)
decode_slots zero page page_no slots_end content_end slot prev = ok []
decode_slots (suc n) page page_no slots_end content_end slot prev = do
  key ← ok_or (get_range page slot 16) (malformed_page page_no "slot key")
  guard (in_order prev key) (malformed_page page_no "unsorted leaf keys")
  off ← ok_or (read_u16 page (slot + 16)) (malformed_page page_no "short read")
  len ← ok_or (read_u16 page (slot + 18)) (malformed_page page_no "short read")
  guard (not (ltb off slots_end || (len == 0 || ltb content_end (off + len))))
      (malformed_page page_no "cell bounds")
  cell_bytes ← ok_or (get_range page off len) (malformed_page page_no "cell bounds")
  cell ← decode_cell cell_bytes page_no
  rest ← decode_slots n page page_no slots_end content_end (slot + slot_len) (some key)
  ok (record { key = key; cell = cell } ∷ rest)

-- The loop over the entries of an inner node.
unfoldable pub decode_children : ℕ → Bytes → ℕ → ℕ → Option Bytes → Result (List (Bytes × ℕ))
decode_children zero page page_no base prev = ok []
decode_children (suc n) page page_no base prev = do
  key ← ok_or (get_range page base 16) (malformed_page page_no "inner key")
  guard (in_order prev key) (malformed_page page_no "unsorted inner keys")
  child ← ok_or (read_u64 page (base + 16)) (malformed_page page_no "short read")
  guard (not (child == 0)) (malformed_page page_no "null child")
  rest ← decode_children n page page_no (base + inner_entry_len) (some key)
  ok ((key, child) ∷ rest)

-- The two kinds of node. A count of 32 bits does not overflow the products.
unfoldable pub decode_leaf : Bytes → ℕ → ℕ → ℕ → Result Node
decode_leaf page page_no n content_end = do
  guard (leb (page_header_len + n * slot_len) content_end) (malformed_page page_no "slot directory")
  entries ←
      decode_slots n page page_no (page_header_len + n * slot_len) content_end page_header_len none
  ok (leaf entries)

unfoldable pub decode_inner : Bytes → ℕ → ℕ → ℕ → Result Node
decode_inner page page_no n content_end = do
  guard (not (n == 0)) (malformed_page page_no "empty inner node")
  guard (leb (page_header_len + 8 + n * inner_entry_len) content_end)
      (malformed_page page_no "inner entries")
  rightmost ← ok_or (read_u64 page page_header_len) (malformed_page page_no "short read")
  guard (not (rightmost == 0)) (malformed_page page_no "null rightmost child")
  entries ← decode_children n page page_no (page_header_len + 8) none
  ok (inner (record { entries = entries; rightmost = rightmost }))

unfoldable pub node_of_type : PageType → Bytes → ℕ → ℕ → Result Node
node_of_type btree_leaf page page_no n = decode_leaf page page_no n (length page - page_trailer_len)
node_of_type btree_inner page page_no n =
    decode_inner page page_no n (length page - page_trailer_len)
node_of_type _ page page_no n = err (malformed_page page_no "unexpected page type in b-tree")

-- `decode_node`
unfoldable pub decode_node : Bytes → ℕ → Result Node
unfolding node_of_type
decode_node page page_no = do
  header ← ok_or (P.decode page) (malformed_page page_no "page header")
  node_of_type header.page_type page page_no header.entry_count

-- A cell as it stands on the page.
abbrev pub cell_bytes : Cell → Bytes
cell_bytes (inline v) = cell_inline ∷ v
cell_bytes (overflow total_len first_page) =
    cell_overflow ∷ (le_bytes 4 total_len ++ le_bytes 8 first_page)

-- The loop of `encode_leaf`: cells from the tail down, slots from the front on.
unfoldable pub put_entries : Bytes → List LeafEntry → ℕ → ℕ → Bytes
put_entries page [] slot cursor = page
put_entries page (e ∷ es) slot cursor =
    let cell_len = encoded_len e.cell in
    let cursor = cursor - cell_len in
    let page = write_bytes page cursor (cell_bytes e.cell) in
    let page = write_bytes page slot (e.key ++ (le_bytes 2 cursor ++ le_bytes 2 cell_len)) in
    put_entries page es (slot + slot_len) cursor

abbrev pub cells_len : List LeafEntry → ℕ
cells_len [] = 0
cells_len (e ∷ es) = encoded_len e.cell + cells_len es

-- `encode_leaf`
unfoldable pub encode_leaf : List LeafEntry → ℕ → Option Bytes
encode_leaf entries page_size =
    let slots_end = page_header_len + length entries * slot_len in
    let content_end = page_size - page_trailer_len in
    if ltb content_end (slots_end + cells_len entries)
    then none
    else let page = replicate page_size 0 in
      let page =
        encode_into (record { page_type = btree_leaf; entry_count = length entries; next_page = 0 })
          page in
      some (put_entries page entries page_header_len content_end)

-- The loop of `encode_inner`.
unfoldable pub put_children : Bytes → List (Bytes × ℕ) → ℕ → Bytes
put_children page [] base = page
put_children page ((key, child) ∷ es) base =
    put_children (write_bytes page base (key ++ le_bytes 8 child)) es (base + inner_entry_len)

unfoldable pub is_nil {ℓ} : {A : Type ℓ} → List A → Bool
is_nil [] = true
is_nil (x ∷ xs) = false

-- `encode_inner`
unfoldable pub encode_inner : InnerNode → ℕ → Option Bytes
unfolding is_nil
encode_inner node page_size =
    if is_nil node.entries
      || ltb (page_size - page_trailer_len)
          (page_header_len + 8 + length node.entries * inner_entry_len)
    then none
    else let page = replicate page_size 0 in
      let page =
        encode_into
          (record { page_type = btree_inner; entry_count = length node.entries; next_page = 0 })
          page in
      let page = write_bytes page page_header_len (le_bytes 8 node.rightmost) in
      some (put_children page node.entries (page_header_len + 8))
