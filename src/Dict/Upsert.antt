-- ===== src/Dict/Upsert.antt =====
-- crates/embedmind-core/src/index/dict.rs: `insert_rec` and `upsert`, over the pages of a transaction.
use Prim.Native.Nat.{Ordering}
use embedmind.Prelude.{
  ℕ, zero, suc, ◌+◌, ◌/◌, not, Option, none, some, List, [], ◌∷◌, length, take, drop, ltb, leb,
  if◌then◌else◌,
}
use embedmind.Error.{malformed_page, internal, invalid_argument, ok_or}
use embedmind.Effect.{Exec, pure, raise, require, lift, ◌>>=◌, ◌>>◌}
use embedmind.Bytes.{Bytes}
use embedmind.Bytes.Order.{bytes_cmp}
use embedmind.Format.{Xxh3}
use embedmind.Btree.Codec.{is_nil}
use embedmind.Btree.Search.{insert_at}
use embedmind.Btree.Pieces.{Ins, fit, split, pop, position, set_child}
use embedmind.Btree.Insert.{TxnPages}
use embedmind.Dict.{
  DictSpec, max_depth, Value, inline, overflow, LeafEntry, footprint, InnerNode, Node, leaf, inner,
}
use embedmind.Dict.Chain.{chain_pages, make_value}
use embedmind.Dict.Codec.{decode_node, encode_leaf, encode_inner, footprints}
use embedmind.Dict.Get.{find, child_for}

-- `insert_rec` on the entries of a leaf in order: the value of the entry with the key is replaced, or
-- a new entry is put where the key belongs.
unfoldable pub with_value : Bytes → Value → List LeafEntry → List LeafEntry
with_value key value [] = record { key = key; value = value } ∷ []
with_value key value (e ∷ es) =
    let rest = with_value key value es in
    elim (bytes_cmp e.key key) [
      | Ordering.lt ↦ e ∷ rest
      | Ordering.eq ↦ record e { value = value } ∷ es
      | Ordering.gt ↦ record { key = key; value = value } ∷ e ∷ es
    ]

-- The loop that looks for the byte midpoint: the first index of the right half.
unfoldable pub cut_at : ℕ → ℕ → List LeafEntry → ℕ
cut_at half acc [] = 0
cut_at half acc (e ∷ es) =
    let rest = cut_at half (acc + footprint e) es in
    if leb half (acc + footprint e) then 1 else suc rest

abbrev pub left_half : List LeafEntry → List LeafEntry
left_half es = take (cut_at (footprints es / 2) 0 es) es

abbrev pub right_half : List LeafEntry → List LeafEntry
right_half es = drop (cut_at (footprints es / 2) 0 es) es

abbrev pub last_key : List LeafEntry → Option Bytes
last_key [] = none
last_key (e ∷ []) = some e.key
last_key (e ∷ f ∷ es) = last_key (f ∷ es)

-- The node after its child at `idx` was split: the child keeps the keys up to `sep`.
unfoldable pub with_split : InnerNode → ℕ → ℕ → Bytes → ℕ → InnerNode
with_split node idx child sep right =
    let last = if ltb idx (length node.entries) then node.rightmost else right in
    record {
      entries = insert_at idx (sep, child) (set_child idx right node.entries);
      rightmost = last;
    }

module _ (x : Xxh3) (S : Type 0) (T : TxnPages S) (spec : DictSpec) where
  -- The pages that a replaced value leaves.
  unfoldable pub reuse_of : Option Value → Exec S (List ℕ)
  reuse_of none = pure []
  reuse_of (some (inline body)) = pure []
  reuse_of (some (overflow total_len first_page)) = chain_pages x S T spec first_page total_len

  split_leaf : ℕ → Option Bytes → Option Bytes → Bytes → Exec S Ins
  split_leaf page_no (some left_page) (some right_page) sep = do
    right ← T.allocate_page
    T.write_page page_no left_page
    T.write_page right right_page
    pure (split sep right)
  split_leaf page_no left_page right_page sep = raise (internal "dict leaf split does not fit")

  unfoldable pub store_leaf : ℕ → List LeafEntry → Option Bytes → Exec S Ins
  unfolding split_leaf
  store_leaf page_no entries (some encoded) = do T.write_page page_no encoded; pure fit
  store_leaf page_no entries none = do
    require (not (is_nil (right_half entries))) (internal "dict leaf split produced an empty half")
    sep ← lift (ok_or (last_key (left_half entries)) (internal "dict leaf split empty left"))
    split_leaf page_no (encode_leaf x (left_half entries) T.page_size spec)
        (encode_leaf x (right_half entries) T.page_size spec) sep

  unfoldable pub write_halves : ℕ → Bytes → Option Bytes → Option Bytes → Exec S Ins
  write_halves page_no sep (some left_page) (some right_page) = do
    right ← T.allocate_page
    T.write_page page_no left_page
    T.write_page right right_page
    pure (split sep right)
  write_halves page_no sep left_page right_page = raise (internal "dict inner split does not fit")

  -- `split_off` at the middle, and the entry before it, which goes up.
  unfoldable pub split_around :
      ℕ → InnerNode → List (Bytes × ℕ) → Option (List (Bytes × ℕ) × (Bytes × ℕ)) → Exec S Ins
  unfolding write_halves
  split_around page_no node right_entries none = raise (internal "dict inner split underflow")
  split_around page_no node right_entries (some (front, (key, child))) =
      write_halves page_no key
        (encode_inner x (record { entries = front; rightmost = child }) T.page_size spec)
        (encode_inner x (record { entries = right_entries; rightmost = node.rightmost }) T.page_size
          spec)

  unfoldable pub store_inner : ℕ → InnerNode → Option Bytes → Exec S Ins
  unfolding split_around
  store_inner page_no node (some encoded) = do T.write_page page_no encoded; pure fit
  store_inner page_no node none =
      let m = length node.entries / 2 in
      split_around page_no node (drop (m + 1) node.entries) (pop (take (m + 1) node.entries))

  -- The inner node, after its child took the value.
  unfoldable pub take_split : ℕ → InnerNode → Bytes → Ins → Exec S Ins
  take_split page_no node key fit = pure fit
  take_split page_no node key (split sep right) =
      let node = with_split node (position key node.entries) (child_for node key) sep right in
      store_inner page_no node (encode_inner x node T.page_size spec)

  -- What a level does with its node, `down` being the levels below.
  unfoldable pub insert_node : Bytes → Bytes → (ℕ → Exec S Ins) → ℕ → Node → Exec S Ins
  insert_node key body down page_no (leaf entries) = do
    reuse ← reuse_of (find key entries)
    value ← make_value x S T spec body reuse
    store_leaf page_no (with_value key value entries)
        (encode_leaf x (with_value key value entries) T.page_size spec)
  insert_node key body down page_no (inner node) = do
    below ← down (child_for node key)
    take_split page_no node key below

  -- `insert_rec`, with the levels that are left in place of the depth.
  unfoldable pub insert_rec : ℕ → ℕ → Bytes → Bytes → Exec S Ins
  insert_rec zero page_no key body =
      raise (malformed_page page_no "dict tree deeper than MAX_DEPTH")
  insert_rec (suc levels) page_no key body = do
    page ← T.read_page page_no
    node ← lift (decode_node page page_no spec)
    insert_node key body (λ child. insert_rec levels child key body) page_no node

  grow_root : ℕ → Ins → Exec S ℕ
  grow_root root fit = pure root
  grow_root root (split sep right) = do
    new_root ← T.allocate_page
    page ← lift (
        ok_or
          (encode_inner x (record { entries = (sep, root) ∷ []; rightmost = right }) T.page_size
            spec)
          (internal "fresh dict root does not fit"))
    T.write_page new_root page
    pure new_root

  unfoldable pub first_leaf : Bytes → Bytes → Exec S ℕ
  first_leaf key body = do
    value ← make_value x S T spec body []
    page_no ← T.allocate_page
    page ← lift (
        ok_or (encode_leaf x (record { key = key; value = value } ∷ []) T.page_size spec)
          (internal "fresh dict leaf does not fit"))
    T.write_page page_no page
    pure page_no

  -- `root == 0` is the empty dictionary.
  unfoldable pub upsert_at_root : ℕ → Bytes → Bytes → Exec S ℕ
  unfolding grow_root first_leaf
  upsert_at_root zero key body = first_leaf key body
  upsert_at_root (suc r) key body = do
    ins ← insert_rec max_depth (suc r) key body
    grow_root (suc r) ins

  -- `upsert`: the root, moved or not.
  unfoldable pub upsert : ℕ → Bytes → Bytes → Exec S ℕ
  unfolding upsert_at_root
  upsert root key body = do
    require (leb (length key) spec.max_key_len) (invalid_argument "dict key exceeds its length cap")
    upsert_at_root root key body
