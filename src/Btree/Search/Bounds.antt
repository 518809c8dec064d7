-- ===== src/Btree/Search/Bounds.antt =====
-- crates/embedmind-core/src/storage/btree.rs, the leaves of `insert_rec`: about the order, the
-- validity and the size of entries after an update.
use embedmind.Prelude.{
  ℕ, ◌+◌, ◌≤◌, ◌<◌, ◌≡◌, ◌⊎◌, inl, inr, refl, true, Option, none, some, List, [], ◌∷◌, length, All,
  le-cases, arith,
}
use embedmind.Bytes.{Bytes}
use embedmind.Bytes.Order.{bytes_cmp_refl, IsBefore, lt_of_gt, cmp-cases}
use embedmind.Btree.{
  Cell, LeafEntry, total_footprint, encoded_len, slot_len, usable, max_entry_footprint,
}
use embedmind.Btree.Codec.{in_order, encode_leaf}
use embedmind.Btree.Leaf.{IsCell, IsEntry, Ascends}
use embedmind.Btree.LeafPage.{encode_leaf_fits}
use embedmind.Btree.Split.{IsSmall, left_half, right_half, halves_fit}
use embedmind.Btree.Search.{upsert, search}
use embedmind.Btree.Search.Laws.{upsert-before, upsert-at, upsert-behind}

in_order-before : (a b : Bytes) → IsBefore a b → in_order (some a) b ≡ true
unfolding in_order
in_order-before a b h = ground arith

pub upsert-Ascends :
    (key : Bytes) (cell : Cell) (es : List LeafEntry) (prev : Option Bytes)
    → in_order prev key ≡ true
    → Ascends prev es
    → Ascends prev (upsert key cell es)
upsert-Ascends key cell [] prev p v = unfold upsert search in (p, tt)
upsert-Ascends key cell (e ∷ es) prev p (q, v) = elim (cmp-cases e.key key) [
  | inl lt ↦
      rw (upsert-before key cell e es lt)
        (q, upsert-Ascends key cell es (some e.key) (in_order-before e.key key lt) v)
  | inr (inl same) ↦ rw (upsert-at key cell e es (rw same (bytes_cmp_refl key))) (q, v)
  | inr (inr gt) ↦
      rw (upsert-behind key cell e es gt)
        (p, (in_order-before key e.key (lt_of_gt e.key key gt), v))
]

-- What holds of all entries, and of each with the new cell, holds after the update.
module _ (Q : LeafEntry → Type 0) (key : Bytes) (cell : Cell)
    (new : (k : Bytes) → length k ≡ 16 → Q (record { key = k; cell = cell })) where
  All-upsert :
      (es : List LeafEntry)
      → length key ≡ 16
      → All (λ e. length e.key ≡ 16) es
      → All Q es
      → All Q (upsert key cell es)
  All-upsert [] size ks v = unfold upsert search in (new key size, tt)
  All-upsert (e ∷ es) size (k, ks) (q, v) = elim (cmp-cases e.key key) [
    | inl lt ↦ rw (upsert-before key cell e es lt) (q, All-upsert es size ks v)
    | inr (inl same) ↦ rw (upsert-at key cell e es (rw same (bytes_cmp_refl key))) (new e.key k, v)
    | inr (inr gt) ↦ rw (upsert-behind key cell e es gt) (new key size, (q, v))
  ]

key_sizes : (es : List LeafEntry) → All IsEntry es → All (λ e. length e.key ≡ 16) es
key_sizes [] v = tt
key_sizes (e ∷ es) ((k, c), v) = (k, key_sizes es v)

pub upsert-IsEntry :
    (key : Bytes) (cell : Cell) (es : List LeafEntry)
    → length key ≡ 16
    → IsCell cell
    → All IsEntry es
    → All IsEntry (upsert key cell es)
upsert-IsEntry key cell es size c v =
    All-upsert IsEntry key cell (λ k h. (h, c)) es size (key_sizes es v) v

upsert-IsSmall :
    (page_size : ℕ) (key : Bytes) (cell : Cell) (es : List LeafEntry)
    → length key ≡ 16
    → slot_len + encoded_len cell ≤ max_entry_footprint page_size
    → All IsEntry es
    → All (IsSmall page_size) es
    → All (IsSmall page_size) (upsert key cell es)
upsert-IsSmall page_size key cell es size c v small =
    All-upsert (IsSmall page_size) key cell (λ k h. c) es size (key_sizes es v) small

total_footprint-upsert :
    (key : Bytes) (cell : Cell) (es : List LeafEntry)
    → total_footprint (upsert key cell es) ≤ total_footprint es + (slot_len + encoded_len cell)
total_footprint-upsert key cell [] = unfold upsert search in omega arith
total_footprint-upsert key cell (e ∷ es) = elim (cmp-cases e.key key) [
  | inl lt ↦ rw (upsert-before key cell e es lt) (omega (arith, total_footprint-upsert key cell es))
  | inr (inl same) ↦ rw (upsert-at key cell e es (rw same (bytes_cmp_refl key))) (omega arith)
  | inr (inr gt) ↦ rw (upsert-behind key cell e es gt) (omega arith)
]

abbrev pub Encodes : ℕ → List LeafEntry → Type 0
Encodes page_size es = (page : Bytes) × (encode_leaf es page_size ≡ some page)

-- After an update of a leaf of valid entries that fits its page, of 512 bytes or more, where each
-- entry and the new cell with its slot take up a quarter of the usable space at most, and keys have
-- 16 bytes: either the entries fit still, or both halves of the split do, and neither half is empty.
pub upsert_fits_or_splits :
    (page_size : ℕ) (key : Bytes) (cell : Cell) (es : List LeafEntry)
    → 512 ≤ page_size
    → length key ≡ 16
    → slot_len + encoded_len cell ≤ max_entry_footprint page_size
    → All IsEntry es
    → All (IsSmall page_size) es
    → total_footprint es ≤ usable page_size
    → let after = upsert key cell es in
      Encodes page_size after
      ⊎ ((0 < length (left_half after))
          × (0 < length (right_half after))
          × Encodes page_size (left_half after)
          × Encodes page_size (right_half after))
upsert_fits_or_splits page_size key cell es big size c v small fits =
    let after = upsert key cell es in
    let grown = total_footprint-upsert key cell es in
    elim (le-cases (total_footprint after) (usable page_size)) [
      | inl room ↦ inl (encode_leaf_fits after page_size (omega arith) room)
      | inr over ↦ inr (
          halves_fit page_size after big (upsert-IsSmall page_size key cell es size c v small) over
            (omega arith))
    ]

-- An update of a leaf with a key of 16 bytes and a cell that the format can hold leaves entries
-- that are valid and in strictly ascending order of keys, if they were.
pub upsert-IsLeaf :
    (key : Bytes) (cell : Cell) (es : List LeafEntry)
    → length key ≡ 16
    → IsCell cell
    → All IsEntry es
    → Ascends none es
    → All IsEntry (upsert key cell es) × Ascends none (upsert key cell es)
upsert-IsLeaf key cell es size c v asc = (
  upsert-IsEntry key cell es size c v,
  upsert-Ascends key cell es none (unfold in_order in refl) asc,
)
