-- ===== src/Tests/Leaves.antt =====
-- The theorems on the nodes of the tree at concrete inputs.
use embedmind.Prelude.{
  ℕ, ◌<◌, ◌≡◌, ◌⊎◌, refl, none, some, List, [], ◌∷◌, length, replicate, All, arith,
}
use embedmind.Error.{ok}
use embedmind.Bytes.{Bytes}
use embedmind.Bytes.Order.{bytes_cmp}
use embedmind.Format.{stamp_page_checksum}
use embedmind.Btree.{LeafEntry, inline, overflow, InnerNode, leaf, inner}
use embedmind.Btree.Codec.{in_order, decode_node}
use embedmind.Btree.Leaf.{IsEntry, Ascends}
use embedmind.Btree.LeafPage.{encode_leaf_fits, decode_node-encode_leaf}
use embedmind.Btree.Inner.{encode_inner_fits, decode_node-encode_inner}
use embedmind.Btree.Body.{decode_node-stamp}
use embedmind.Btree.Split.{left_half, right_half}
use embedmind.Btree.Search.{upsert, find}
use embedmind.Btree.Search.Laws.{find-upsert_map}
use embedmind.Btree.Search.Bounds.{Encodes, upsert_fits_or_splits, upsert-IsLeaf}
use embedmind.Tests.{xxh}

abbrev pub key_of : ℕ → Bytes
key_of b = replicate 16 b

abbrev pub two_entries : List LeafEntry
two_entries =
    record { key = key_of 1; cell = inline (5 ∷ []) }
    ∷ record { key = key_of 2; cell = overflow 100 7 }
    ∷ []

pub two_entries-IsEntry : All IsEntry two_entries
two_entries-IsEntry = ((refl, tt), ((refl, (omega arith, omega arith, omega arith)), tt))

pub two_entries-Ascends : Ascends none two_entries
unfolding in_order bytes_cmp
two_entries-Ascends = (refl, (refl, tt))

-- The page of the two entries.
abbrev pub leaf_page : Bytes
leaf_page = (encode_leaf_fits two_entries 128 (omega arith) (omega arith)).0

decode_node-encode_leaf_example : decode_node leaf_page 9 ≡ ok (leaf two_entries)
decode_node-encode_leaf_example =
    decode_node-encode_leaf two_entries 128 9 leaf_page (omega arith) (omega arith)
      two_entries-IsEntry two_entries-Ascends
      (encode_leaf_fits two_entries 128 (omega arith) (omega arith)).1

decode_node-stamp_example :
    decode_node (stamp_page_checksum xxh (replicate 32 0)) 9 ≡ decode_node (replicate 32 0) 9
decode_node-stamp_example = decode_node-stamp xxh (replicate 32 0) 9 (omega arith)

abbrev pub one_child : InnerNode
one_child = record { entries = (key_of 3, 4) ∷ []; rightmost = 5 }

abbrev pub inner_page : Bytes
inner_page = (encode_inner_fits one_child 64 (omega arith) (omega arith)).0

decode_node-encode_inner_example : decode_node inner_page 9 ≡ ok (inner one_child)
unfolding in_order
decode_node-encode_inner_example =
    decode_node-encode_inner one_child 64 9 inner_page (omega arith) (omega arith)
      ((refl, omega arith, omega arith), tt) (refl, tt) (omega arith) (omega arith)
      (encode_inner_fits one_child 64 (omega arith) (omega arith)).1

upsert_fits_or_splits_example :
    Encodes 512 (upsert (key_of 3) (inline []) two_entries)
    ⊎ ((0 < length (left_half (upsert (key_of 3) (inline []) two_entries)))
        × (0 < length (right_half (upsert (key_of 3) (inline []) two_entries)))
        × Encodes 512 (left_half (upsert (key_of 3) (inline []) two_entries))
        × Encodes 512 (right_half (upsert (key_of 3) (inline []) two_entries)))
upsert_fits_or_splits_example =
    upsert_fits_or_splits 512 (key_of 3) (inline []) two_entries (omega arith) refl (omega arith)
      two_entries-IsEntry (omega arith, (omega arith, tt)) (omega arith)

find-upsert_map_example :
    (find (key_of 2) (upsert (key_of 2) (inline []) two_entries) ≡ some (inline []))
    × (find (key_of 1) (upsert (key_of 2) (inline []) two_entries) ≡ find (key_of 1) two_entries)
find-upsert_map_example = find-upsert_map (key_of 2) (key_of 1) (inline []) two_entries (λ e. cc)

upsert-IsLeaf_example :
    All IsEntry (upsert (key_of 3) (inline []) two_entries)
    × Ascends none (upsert (key_of 3) (inline []) two_entries)
upsert-IsLeaf_example =
    upsert-IsLeaf (key_of 3) (inline []) two_entries refl tt two_entries-IsEntry two_entries-Ascends
