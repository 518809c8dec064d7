-- ===== src/Btree/Insert.antt =====
-- crates/embedmind-core/src/storage/btree.rs: `write_overflow`, `chain_pages`, `make_cell`,
-- `insert_rec` and `insert`, over the pages of a transaction.
use embedmind.Prelude.{
  ℕ, zero, suc, ◌+◌, ◌-◌, ◌/◌, not, Option, none, some, List, [], ◌∷◌, length, leb, ◌==◌,
  if◌then◌else◌,
}
use embedmind.Error.{malformed_page, internal, invalid_argument, ok_or}
use embedmind.Effect.{Exec, pure, raise, require, gets, modify, lift, ◌>>=◌, ◌>>◌}
use embedmind.Bytes.{Bytes}
use embedmind.Format.Page as P
use embedmind.Format.Page.{PageType, PageHeader, encode_into}
use embedmind.Record.{max_record_len}
use embedmind.Btree.{
  max_depth, overflow_capacity, max_inline_value, Cell, LeafEntry, InnerNode, Node, leaf, inner,
}
use embedmind.Btree as B
use embedmind.Btree.Codec.{decode_node, encode_leaf, encode_inner, is_nil}
use embedmind.Btree.Search.{search, cell_at, upsert}
use embedmind.Btree.Split.{left_half, right_half}
use embedmind.Btree.Lookup.{is_overflow, child_for}
use embedmind.Btree.Pieces.{
  chunks, first_or_zero, overflow_page, Ins, fit, split, position, with_split, InnerSplit,
  split_inner, last_key,
}

-- What the tree needs of a transaction.
pub record TxnPages (S : Type 0) : Type 0 where
  pub read_page : ℕ → Exec S Bytes
  pub allocate_page : Exec S ℕ
  pub write_page : ℕ → Bytes → Exec S (Unit {0})
  pub root_btree_page : S → ℕ
  pub set_root_btree_page : ℕ → S → S
  pub page_size : ℕ

module _ (S : Type 0) (T : TxnPages S) where
  -- `write_overflow`, its two loops first.
  unfoldable pub claim_pages : ℕ → List ℕ → Exec S (List ℕ)
  claim_pages zero reuse = pure []
  claim_pages (suc n) (p ∷ reuse) = do rest ← claim_pages n reuse; pure (p ∷ rest)
  claim_pages (suc n) [] = do p ← T.allocate_page; rest ← claim_pages n []; pure (p ∷ rest)

  unfoldable pub write_chunks : List Bytes → List ℕ → Exec S (Unit {0})
  write_chunks [] pages = pure tt
  write_chunks (c ∷ cs) [] = raise (internal "index out of bounds")
  write_chunks (c ∷ cs) (p ∷ ps) = do
    T.write_page p (overflow_page T.page_size c (first_or_zero ps))
    write_chunks cs ps

  unfoldable pub first_page : List ℕ → Exec S ℕ
  first_page [] = raise (internal "empty overflow chain")
  first_page (p ∷ ps) = pure p

  unfoldable pub write_overflow : Bytes → List ℕ → Exec S ℕ
  unfolding first_page
  write_overflow value reuse =
      let cs = chunks (length value) (overflow_capacity T.page_size) value in
      (do pages ← claim_pages (length cs) reuse; write_chunks cs pages; first_page pages)

  -- `chain_pages`
  onward : ℕ → Exec S (List ℕ) → Exec S (List ℕ)
  onward zero rest = pure []
  onward (suc next_page) rest = rest

  unfoldable pub chain_from : ℕ → ℕ → Exec S (List ℕ)
  unfolding onward
  chain_from zero page_no = pure []
  chain_from (suc n) page_no = do
    page ← T.read_page page_no
    header ← lift (ok_or (P.decode page) (malformed_page page_no "overflow header"))
    require (is_overflow header.page_type) (malformed_page page_no "not an overflow page")
    rest ← onward header.next_page (chain_from n header.next_page)
    pure (page_no ∷ rest)

  unfoldable pub chain_pages : ℕ → ℕ → Exec S (List ℕ)
  chain_pages first_page total_len =
      let cap = overflow_capacity T.page_size in
      let pages = (total_len + (cap - 1)) / cap in
      chain_from (if pages == 0 then 1 else pages) first_page

  -- `make_cell`
  unfoldable pub make_cell : Bytes → List ℕ → Exec S Cell
  make_cell value reuse =
      if leb (length value) (max_inline_value T.page_size)
      then pure (B.inline value)
      else (do first_page ← write_overflow value reuse; pure (B.overflow (length value) first_page))

  -- The pages that the cell of a replaced entry leaves.
  unfoldable pub reuse_of : Option Cell → Exec S (List ℕ)
  reuse_of none = pure []
  reuse_of (some (B.inline v)) = pure []
  reuse_of (some (B.overflow total_len first_page)) = chain_pages first_page total_len

  split_leaf : ℕ → List LeafEntry → Option Bytes → Option Bytes → Option Bytes → Exec S Ins
  split_leaf page_no entries (some left_page) (some right_page) (some sep) = do
    right ← T.allocate_page
    T.write_page page_no left_page
    T.write_page right right_page
    pure (split sep right)
  split_leaf page_no entries left_page right_page sep = raise (internal "leaf split does not fit")

  unfoldable pub store_leaf : ℕ → List LeafEntry → Option Bytes → Exec S Ins
  unfolding split_leaf
  store_leaf page_no entries (some encoded) = do T.write_page page_no encoded; pure fit
  store_leaf page_no entries none = do
    require (not (is_nil (right_half entries))) (internal "leaf split produced an empty half")
    split_leaf page_no entries (encode_leaf (left_half entries) T.page_size)
        (encode_leaf (right_half entries) T.page_size) (last_key (left_half entries))

  write_halves : ℕ → Bytes → Option Bytes → Option Bytes → Exec S Ins
  write_halves page_no sep (some left_page) (some right_page) = do
    right ← T.allocate_page
    T.write_page page_no left_page
    T.write_page right right_page
    pure (split sep right)
  write_halves page_no sep left_page right_page = raise (internal "inner split does not fit")

  store_split : ℕ → Option InnerSplit → Exec S Ins
  unfolding write_halves
  store_split page_no none = raise (internal "inner split underflow")
  store_split page_no (some s) =
      write_halves page_no s.promoted (encode_inner s.left T.page_size)
        (encode_inner s.right T.page_size)

  unfoldable pub store_inner : ℕ → InnerNode → Option Bytes → Exec S Ins
  unfolding store_split
  store_inner page_no node (some encoded) = do T.write_page page_no encoded; pure fit
  store_inner page_no node none = store_split page_no (split_inner node)

  -- The inner node, after its child took the value.
  unfoldable pub take_split : ℕ → InnerNode → Bytes → Ins → Exec S Ins
  take_split page_no node key fit = pure fit
  take_split page_no node key (split sep right) =
      let node = with_split node (position key node.entries) (child_for node key) sep right in
      store_inner page_no node (encode_inner node T.page_size)

  -- What a level does with its node, `down` being the levels below.
  unfoldable pub insert_node : Bytes → Bytes → (ℕ → Exec S Ins) → ℕ → Node → Exec S Ins
  insert_node key value down page_no (leaf entries) = do
    reuse ← reuse_of (cell_at entries (search key entries))
    cell ← make_cell value reuse
    store_leaf page_no (upsert key cell entries) (encode_leaf (upsert key cell entries) T.page_size)
  insert_node key value down page_no (inner node) = do
    below ← down (child_for node key)
    take_split page_no node key below

  -- `insert_rec`, with the levels that are left in place of the depth.
  unfoldable pub insert_rec : ℕ → ℕ → Bytes → Bytes → Exec S Ins
  insert_rec zero page_no key value = raise (malformed_page page_no "b-tree deeper than MAX_DEPTH")
  insert_rec (suc levels) page_no key value = do
    page ← T.read_page page_no
    node ← lift (decode_node page page_no)
    insert_node key value (λ child. insert_rec levels child key value) page_no node

  grow_root : ℕ → Ins → Exec S (Unit {0})
  grow_root root fit = pure tt
  grow_root root (split sep right) = do
    new_root ← T.allocate_page
    page ← lift (
        ok_or (encode_inner (record { entries = (sep, root) ∷ []; rightmost = right }) T.page_size)
          (internal "fresh root does not fit"))
    T.write_page new_root page
    modify (T.set_root_btree_page new_root)

  unfoldable pub first_leaf : Bytes → Bytes → Exec S (Unit {0})
  first_leaf key value = do
    cell ← make_cell value []
    page_no ← T.allocate_page
    page ← lift (
        ok_or (encode_leaf (record { key = key; cell = cell } ∷ []) T.page_size)
          (internal "fresh leaf does not fit"))
    T.write_page page_no page
    modify (T.set_root_btree_page page_no)

  -- `root == 0` is the empty tree.
  unfoldable pub insert_at_root : Bytes → Bytes → ℕ → Exec S (Unit {0})
  unfolding grow_root first_leaf
  insert_at_root key value zero = first_leaf key value
  insert_at_root key value (suc r) = do
    ins ← insert_rec max_depth (suc r) key value
    grow_root (suc r) ins

  -- `insert`
  unfoldable pub insert : Bytes → Bytes → Exec S (Unit {0})
  unfolding insert_at_root
  insert key value = do
    require (leb (length value) max_record_len) (invalid_argument "value exceeds MAX_RECORD_LEN")
    root ← gets T.root_btree_page
    insert_at_root key value root
