-- ===== src/Tests/Trees.antt =====
-- The theorems on trees over pages and over transactions at concrete inputs.
use embedmind.Prelude.{
  ℕ, ◌≡◌, refl, none, some, List, [], ◌∷◌, length, replicate, length-replicate, arith, ◌==◌,
  if◌then◌else◌,
}
use embedmind.Error.{ok}
use embedmind.Bytes.{Bytes}
use embedmind.Bytes.Order.{bytes_cmp}
use embedmind.Btree.{LeafEntry, inline}
use embedmind.Btree.Codec.{in_order}
use embedmind.Btree.LeafPage.{encode_leaf_fits, decode_node-encode_leaf}
use embedmind.Btree.Inner.{encode_inner_fits, decode_node-encode_inner}
use embedmind.Btree.Search.{find, search}
use embedmind.Btree.Lookup.{PageSource, get, resolve_found, resolve_cell, read_overflow}
use embedmind.Btree.Tree.{Tree, tip, branch, last, upto, Holds, get-Holds}
use embedmind.Btree.Insert.{insert, write_overflow}
use embedmind.Btree.Chains.{IsTxn, source}
use embedmind.Btree.Overflow.{read_overflow-write_overflow}
use embedmind.Btree.First.{get-insert_first}
use embedmind.Btree.Session.{Session, txn_pages, shown, count, txn_pages-IsTxn}
use embedmind.Pager.Txn
use embedmind.Pager.Txn.{no_pending}
use embedmind.Tests.{xxh, small_store}
use embedmind.Tests.Leaves.{
  key_of, two_entries, two_entries-IsEntry, two_entries-Ascends, leaf_page, one_child, inner_page,
}

abbrev last_entries : List LeafEntry
last_entries = record { key = key_of 5; cell = inline (6 ∷ []) } ∷ []

abbrev last_page : Bytes
last_page = (encode_leaf_fits last_entries 128 (omega arith) (omega arith)).0

-- A root over two leaves.
abbrev three_pages : PageSource
three_pages = record {
  page = λ n. if n == 1 then ok inner_page else if n == 4 then ok leaf_page else ok last_page;
  page_size = 128;
  format_version = 8;
}

abbrev small_tree : Tree
small_tree = branch (upto (tip two_entries) (key_of 3) (last (tip last_entries)))

small_tree-Holds : Holds three_pages 1 small_tree
unfolding in_order
small_tree-Holds = (
  inner_page,
  one_child,
  refl,
  decode_node-encode_inner one_child 64 1 inner_page (omega arith) (omega arith)
      ((refl, omega arith, omega arith), tt) (refl, tt) (omega arith) (omega arith)
      (encode_inner_fits one_child 64 (omega arith) (omega arith)).1,
  (
    refl,
    (
      leaf_page,
      refl,
      decode_node-encode_leaf two_entries 128 4 leaf_page (omega arith) (omega arith)
          two_entries-IsEntry two_entries-Ascends
          (encode_leaf_fits two_entries 128 (omega arith) (omega arith)).1,
    ),
    (
      last_page,
      refl,
      decode_node-encode_leaf last_entries 128 5 last_page (omega arith) (omega arith)
          ((refl, tt), tt) (refl, tt)
          (encode_leaf_fits last_entries 128 (omega arith) (omega arith)).1,
    ),
  ),
)

get-Holds_example : get three_pages 1 (key_of 5) ≡ ok (some (6 ∷ []))
unfolding resolve_found resolve_cell find search bytes_cmp
get-Holds_example =
    get-Holds three_pages 1 (key_of 5) small_tree (omega arith) (tt, tt)
      ((refl, (refl, tt)), (refl, tt), tt, tt) small_tree-Holds

-- A transaction on a pager without a tree.
abbrev empty_session : Session
empty_session = record {
  txn = record { dirty = []; page_count = 2; pending = record no_pending { root_btree = some 0 } };
  store = small_store;
}

txn_pages-IsTxn_example : IsTxn Session (txn_pages xxh 512) (shown xxh) count
txn_pages-IsTxn_example = txn_pages-IsTxn xxh 512 (omega arith)

abbrev long_value : Bytes
long_value = replicate 600 7

read_overflow-write_overflow_example :
    ((write_overflow Session (txn_pages xxh 512) long_value [] empty_session).0 ≡ ok 2)
    × (read_overflow
          (source Session
            (txn_pages xxh 512)
            (shown xxh (write_overflow Session (txn_pages xxh 512) long_value [] empty_session).1))
          2
          (length long_value)
        ≡ ok long_value)
unfolding txn_pages
read_overflow-write_overflow_example =
    read_overflow-write_overflow Session (txn_pages xxh 512) (shown xxh) count
      (txn_pages-IsTxn xxh 512 (omega arith)) (omega arith) (omega arith) long_value empty_session
      (omega (arith, length-replicate {A = ℕ} 600 7)) (omega arith)
      (omega (arith, length-replicate {A = ℕ} 600 7))

get-insert_first_example :
    let out = insert Session (txn_pages xxh 512) (key_of 1) (5 ∷ []) empty_session in
    (out.0 ≡ ok tt)
    × (get
          (source Session (txn_pages xxh 512) (shown xxh out.1))
          ((txn_pages xxh 512).root_btree_page out.1)
          (key_of 1)
        ≡ ok (some (5 ∷ [])))
    × (get
          (source Session (txn_pages xxh 512) (shown xxh out.1))
          ((txn_pages xxh 512).root_btree_page out.1)
          (key_of 2)
        ≡ ok none)
unfolding txn_pages Txn.root_btree_page
get-insert_first_example =
    get-insert_first Session (txn_pages xxh 512) (shown xxh) count
      (txn_pages-IsTxn xxh 512 (omega arith)) (omega arith) (omega arith) (key_of 1) (5 ∷ [])
      (key_of 2) empty_session refl refl (omega arith) (omega arith) (omega arith) (λ e. cc)
