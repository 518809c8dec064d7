-- ===== src/Btree/Pieces.antt =====
-- crates/embedmind-core/src/storage/btree.rs: what an insertion computes without the transaction,
-- chunks of values and their pages, and the parts of an inner node that is split.
use embedmind.Prelude.{
  ℕ, zero, suc, ◌+◌, ◌/◌, Option, none, some, List, [], ◌∷◌, length, replicate, take, drop, ltb,
  if◌then◌else◌,
}
use embedmind.Bytes.{Bytes, write_bytes}
use embedmind.Bytes.Order.{bytes_le}
use embedmind.Format.{page_header_len}
use embedmind.Format.Page.{PageType, encode_into}
use embedmind.Btree.{LeafEntry, InnerNode}
use embedmind.Btree.Search.{insert_at}

-- `chunks`; a list of `turns` bytes has at most as many chunks.
unfoldable pub chunks : ℕ → ℕ → Bytes → List Bytes
chunks zero cap value = []
chunks (suc turns) cap [] = []
chunks (suc turns) cap (b ∷ bs) = take cap (b ∷ bs) ∷ chunks turns cap (drop cap (b ∷ bs))

-- `pages.get(i + 1).copied().unwrap_or(0)`
abbrev pub first_or_zero : List ℕ → ℕ
first_or_zero [] = 0
first_or_zero (p ∷ ps) = p

unfoldable pub overflow_page : ℕ → Bytes → ℕ → Bytes
overflow_page page_size chunk next_page =
    let page = replicate page_size 0 in
    let page =
      encode_into
        (record {
          page_type = PageType.overflow;
          entry_count = length chunk;
          next_page = next_page;
        })
        page in
    write_bytes page page_header_len chunk

pub data Ins : Type 0 where
  fit : Ins
  split : Bytes → ℕ → Ins

-- `Vec::pop`
abbrev pub pop {ℓ} : {A : Type ℓ} → List A → Option (List A × A)
pop [] = none
pop (x ∷ []) = some ([], x)
pop (x ∷ y ∷ ys) = elim (pop (y ∷ ys)) [
  | none ↦ none
  | some (front, final) ↦ some (x ∷ front, final)
]

-- `position(|(sep, _)| key <= *sep)`, or the length.
abbrev pub position : Bytes → List (Bytes × ℕ) → ℕ
position key [] = 0
position key ((sep, child) ∷ es) = if bytes_le key sep then 0 else suc (position key es)

abbrev pub set_child : ℕ → ℕ → List (Bytes × ℕ) → List (Bytes × ℕ)
set_child i right [] = []
set_child zero right ((sep, child) ∷ es) = (sep, right) ∷ es
set_child (suc i) right (e ∷ es) = e ∷ set_child i right es

-- The node after its child at `idx` was split: the child keeps the keys up to `sep`.
unfoldable pub with_split : InnerNode → ℕ → ℕ → Bytes → ℕ → InnerNode
with_split node idx child sep right =
    let last = if ltb idx (length node.entries) then node.rightmost else right in
    record {
      entries = insert_at idx (sep, child) (set_child idx right node.entries);
      rightmost = last;
    }

-- The two parts of an inner node that does not fit, and what goes up between them.
pub record InnerSplit : Type 0 where
  pub left : InnerNode
  pub promoted : Bytes
  pub right : InnerNode

split_around :
    InnerNode → List (Bytes × ℕ) → Option (List (Bytes × ℕ) × (Bytes × ℕ)) → Option InnerSplit
split_around node right_entries none = none
split_around node right_entries (some (front, (key, child))) = some (record {
  left = record { entries = front; rightmost = child };
  promoted = key;
  right = record { entries = right_entries; rightmost = node.rightmost };
})

unfoldable pub split_inner : InnerNode → Option InnerSplit
unfolding split_around
split_inner node =
    let m = length node.entries / 2 in
    split_around node (drop (m + 1) node.entries) (pop (take (m + 1) node.entries))

-- The separator of a leaf that was split: the last key to the left.
abbrev pub last_key : List LeafEntry → Option Bytes
last_key [] = none
last_key (e ∷ []) = some e.key
last_key (e ∷ f ∷ es) = last_key (f ∷ es)
