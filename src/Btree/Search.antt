-- ===== src/Btree/Search.antt =====
-- crates/embedmind-core/src/storage/btree.rs: the search in a leaf and what `insert_rec` does to
-- the entries of a leaf. `binary_search_by` on entries in order finds what a search from the
-- front finds: the entry with the key, or the place where it belongs.
pub mod Laws
pub mod Bounds
use Prim.Native.Nat.{Ordering}
use embedmind.Prelude.{ℕ, zero, suc, Option, none, some, List, [], ◌∷◌, get_elem?}
use embedmind.Bytes.{Bytes}
use embedmind.Bytes.Order.{bytes_cmp}
use embedmind.Btree.{Cell, LeafEntry}

-- The result of a search: `Ok` of an index, or `Err` of where the key belongs.
pub data Place : Type 0 where
  found vacant : ℕ → Place

abbrev pub behind : Place → Place
behind (found i) = found (suc i)
behind (vacant i) = vacant (suc i)

-- By how the key of an entry compares: go on behind it, or end here.
abbrev pub step : Ordering → Place → Place
step Ordering.lt rest = behind rest
step Ordering.eq rest = found 0
step Ordering.gt rest = vacant 0

unfoldable pub search : Bytes → List LeafEntry → Place
search key [] = vacant 0
search key (e ∷ es) = step (bytes_cmp e.key key) (search key es)

-- `entries[i].cell = cell`
abbrev pub set_cell : ℕ → Cell → List LeafEntry → List LeafEntry
set_cell i cell [] = []
set_cell zero cell (e ∷ es) = record e { cell = cell } ∷ es
set_cell (suc i) cell (e ∷ es) = e ∷ set_cell i cell es

-- `Vec::insert`
abbrev pub insert_at {ℓ} : {A : Type ℓ} → ℕ → A → List A → List A
insert_at zero x xs = x ∷ xs
insert_at (suc i) x [] = x ∷ []
insert_at (suc i) x (y ∷ ys) = y ∷ insert_at i x ys

abbrev pub put : Bytes → Cell → List LeafEntry → Place → List LeafEntry
put key cell es (found i) = set_cell i cell es
put key cell es (vacant i) = insert_at i (record { key = key; cell = cell }) es

-- The entries after a leaf took a cell for a key.
unfoldable pub upsert : Bytes → Cell → List LeafEntry → List LeafEntry
upsert key cell es = put key cell es (search key es)

abbrev pub cell_at : List LeafEntry → Place → Option Cell
cell_at [] place = none
cell_at (e ∷ es) (found zero) = some e.cell
cell_at (e ∷ es) (found (suc i)) = cell_at es (found i)
cell_at (e ∷ es) (vacant i) = none

-- The cell that a look-up of the key in a leaf gives.
unfoldable pub find : Bytes → List LeafEntry → Option Cell
find key es = cell_at es (search key es)
