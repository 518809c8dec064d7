-- ===== src/Btree/Lookup.antt =====
-- crates/embedmind-core/src/storage/btree.rs: `PageSource`, `child_for`, `read_overflow`,
-- `resolve_cell` and `get`.
use embedmind.Prelude.{
  ℕ, zero, suc, ◌-◌, Bool, true, false, ◌||◌, ◌&&◌, not, Option, none, some, List, [], ◌∷◌, ◌++◌,
  ltb, ◌==◌, if◌then◌else◌,
}
use embedmind.Error.{Result, ok, err, malformed_page, guard, ok_or, ◌>>=◌, ◌>>◌}
use embedmind.Bytes.{Bytes, get_range}
use embedmind.Bytes.Order.{bytes_le}
use embedmind.Format.{Xxh3, page_header_len}
use embedmind.Format.Page as P
use embedmind.Format.Page.{PageType, overflow, PageHeader}
use embedmind.Pager
use embedmind.Pager.{Store}
use embedmind.Pager.Txn
use embedmind.Pager.Txn.{Txn}
use embedmind.Btree.{max_depth, overflow_capacity, Cell, LeafEntry, InnerNode, Node, leaf, inner}
use embedmind.Btree as B
use embedmind.Btree.Codec.{decode_node}
use embedmind.Btree.Search.{find}

-- What the read side needs. The source reads by `&self`, so a read changes no page.
pub record PageSource : Type 0 where
  pub page : ℕ → Result Bytes
  pub page_size : ℕ
  pub format_version : ℕ

-- `impl PageSource for Pager`
unfoldable pub of_pager : Xxh3 → Store → PageSource
of_pager x store = record {
  page = λ page_no. (Pager.read_page x page_no store).0;
  page_size = store.pager.header.page_size;
  format_version = store.pager.header.format_version;
}

-- `impl PageSource for Txn`
unfoldable pub of_txn : Xxh3 → Txn → Store → PageSource
of_txn x t store = record {
  page = λ page_no. (Txn.read_page x t page_no store).0;
  page_size = store.pager.header.page_size;
  format_version = store.pager.header.format_version;
}

-- `child_for`: the entries, then the rightmost child.
abbrev pub child_of : List (Bytes × ℕ) → ℕ → Bytes → ℕ
child_of [] rightmost key = rightmost
child_of ((sep, child) ∷ es) rightmost key =
    if bytes_le key sep then child else child_of es rightmost key

unfoldable pub child_for : InnerNode → Bytes → ℕ
child_for node key = child_of node.entries node.rightmost key

unfoldable pub is_overflow : PageType → Bool
is_overflow PageType.overflow = true
is_overflow _ = false

-- The loop of `read_overflow`. A page that is taken has a byte at least, so as many turns as there
-- are bytes are enough; the loop ends by itself before they run out.
unfoldable pub read_chain : PageSource → ℕ → ℕ → ℕ → Result Bytes
unfolding is_overflow
read_chain src turns page_no zero = ok []
read_chain src zero page_no (suc remaining) = err (malformed_page page_no "out of turns")
read_chain src (suc turns) page_no (suc before) = do
  page ← src.page page_no
  header ← ok_or (P.decode page) (malformed_page page_no "overflow header")
  guard (is_overflow header.page_type) (malformed_page page_no "not an overflow page")
  guard
      (not (
        header.entry_count == 0
        || (ltb (suc before) header.entry_count
            || ltb (overflow_capacity src.page_size) header.entry_count)))
      (malformed_page page_no "overflow payload length")
  payload ←
      ok_or (get_range page page_header_len header.entry_count)
        (malformed_page page_no "overflow payload length")
  guard (not (ltb 0 (suc before - header.entry_count) && header.next_page == 0))
      (malformed_page page_no "broken overflow chain")
  rest ← read_chain src turns header.next_page (suc before - header.entry_count)
  ok (payload ++ rest)

-- `read_overflow`
unfoldable pub read_overflow : PageSource → ℕ → ℕ → Result Bytes
read_overflow src first_page total_len = read_chain src total_len first_page total_len

-- `resolve_cell`
unfoldable pub resolve_cell : PageSource → Cell → Result Bytes
resolve_cell src (B.inline v) = ok v
resolve_cell src (B.overflow total_len first_page) = read_overflow src first_page total_len

unfoldable pub resolve_found : PageSource → Option Cell → Result (Option Bytes)
resolve_found src none = ok none
resolve_found src (some cell) = do value ← resolve_cell src cell; ok (some value)

-- What a level does with its node, `down` being the levels below.
unfoldable pub visit :
    PageSource → Bytes → (ℕ → Result (Option Bytes)) → Node → Result (Option Bytes)
unfolding resolve_found
visit src key down (leaf entries) = resolve_found src (find key entries)
visit src key down (inner node) = down (child_for node key)

-- The loop of `get`.
unfoldable pub descend : PageSource → Bytes → ℕ → ℕ → Result (Option Bytes)
descend src key zero page_no = err (malformed_page page_no "b-tree deeper than MAX_DEPTH")
descend src key (suc levels) page_no = do
  page ← src.page page_no
  node ← decode_node page page_no
  visit src key (λ child. descend src key levels child) node

-- `get`
unfoldable pub get : PageSource → ℕ → Bytes → Result (Option Bytes)
get src root key = if root == 0 then ok none else descend src key max_depth root
