-- ===== src/Tests/Dicts.antt =====
-- The theorems on the dictionary of the indexes at concrete inputs.
use embedmind.Prelude.{
  ℕ, ◌^◌, ◌<◌, ◌≡◌, ◌≢◌, refl, sym, ap, ◌∙◌, Bool, true, false, Option, none, some, List, [], ◌∷◌,
  length, replicate, take, arith,
}
use embedmind.Error.{ok}
use embedmind.Bytes.{Bytes}
use embedmind.Bytes.Order.{bytes_cmp}
use embedmind.Format.Page as P
use embedmind.Format.Page.{fts_postings, PageHeader, encode_into}
use embedmind.Format.Page.Laws.{decode-encode_into, length-encode_into}
use embedmind.Btree.Codec.{in_order, is_nil}
use embedmind.Btree.Lookup.{PageSource}
use embedmind.Dict.{LeafEntry, inline, overflow, leaf, inner, InnerNode}
use embedmind.Dict.Codec.{decode_node, encode_leaf, encode_inner}
use embedmind.Dict.Codec.Leaf.{decode_node-encode_leaf_dict}
use embedmind.Dict.Codec.Inner.{decode_node-encode_inner_dict}
use embedmind.Dict.Codec.Pages.{same_type_refl}
use embedmind.Dict.Get.{read_overflow_chain, child_for}
use embedmind.Dict.Get.Turns.{IsLoop, IsFilled, read_overflow_chain-loops, read_overflow_chain-ends}
use embedmind.Dict.Split.{encode_leaf_fits, dict_halves_fit}
use embedmind.Dict.Split.Inner.{encode_inner_fits}
use embedmind.Effect.{Exec, ◌>>◌}
use embedmind.Btree.Pieces.{Ins, split, position}
use embedmind.Btree.Session.{Session, txn_pages}
use embedmind.Dict.Upsert.{left_half, right_half, with_split, take_split}
use embedmind.Fts.Meta.{fts_spec}
use embedmind.Tests.{xxh}

abbrev is_some : Option Bytes → Bool
is_some none = false
is_some (some b) = true

-- Two entries, a body and a pointer.
abbrev entries : List LeafEntry
entries =
    record { key = 97 ∷ []; value = inline (1 ∷ 2 ∷ []) }
    ∷ record { key = 98 ∷ 99 ∷ []; value = overflow 4000 7 }
    ∷ []

abbrev entries_page : Bytes
entries_page = (encode_leaf_fits xxh entries 128 fts_spec (omega arith) (omega arith)).0

decode_node-encode_leaf_dict_example : decode_node entries_page 3 fts_spec ≡ ok (leaf entries)
unfolding in_order bytes_cmp
decode_node-encode_leaf_dict_example =
    decode_node-encode_leaf_dict xxh entries 128 3 fts_spec entries_page (omega arith) (omega arith)
      ((omega arith, omega arith), ((omega arith, (omega arith, omega arith, omega arith)), tt))
      (refl, (refl, tt)) (encode_leaf_fits xxh entries 128 fts_spec (omega arith) (omega arith)).1

abbrev node : InnerNode
node = record { entries = (97 ∷ [], 4) ∷ (98 ∷ 99 ∷ [], 5) ∷ []; rightmost = 6 }

abbrev node_page : Bytes
node_page = (encode_inner_fits xxh node.entries 6 128 fts_spec (omega arith) (omega arith)).0

decode_node-encode_inner_dict_example : decode_node node_page 3 fts_spec ≡ ok (inner node)
unfolding in_order bytes_cmp
decode_node-encode_inner_dict_example =
    decode_node-encode_inner_dict xxh node 128 3 fts_spec node_page (omega arith) (omega arith)
      ((omega arith, omega arith, omega arith), ((omega arith, omega arith, omega arith), tt))
      (refl, (refl, tt)) (omega arith) (omega arith)
      (encode_inner_fits xxh node.entries 6 128 fts_spec (omega arith) (omega arith)).1

-- A page of a chain, with so many bytes and that next page.
abbrev chain_header : ℕ → ℕ → PageHeader
chain_header used next = record { page_type = fts_postings; entry_count = used; next_page = next }

abbrev chain_page : ℕ → ℕ → Bytes
chain_page used next =
    let zeros : Bytes = replicate 64 0 in encode_into (chain_header used next) zeros

-- A source whose every page is this one.
abbrev everywhere : Bytes → PageSource
everywhere page = record { page = λ n. ok page; page_size = 64; format_version = 8 }

chain_page-decode :
    (used next : ℕ)
    → used < 2 ^ 32
    → next < 2 ^ 64
    → P.decode (chain_page used next) ≡ some (chain_header used next)
chain_page-decode used next few link =
    decode-encode_into (chain_header used next) (replicate 64 0)
      (record { entry_count = few; next_page = link }) (omega arith)

self_page-IsLoop :
    IsLoop (everywhere (chain_page 0 3)) fts_spec 3 (chain_page 0 3) (chain_header 0 3)
self_page-IsLoop = record {
  read = refl;
  decoded = chain_page-decode 0 3 (omega arith) (omega arith);
  of_type = same_type_refl fts_postings;
  empty = refl;
  next = refl;
  real = omega arith;
  long = omega (arith, length-encode_into (chain_header 0 3) (replicate 64 0));
}

read_overflow_chain-loops_example :
    read_overflow_chain (everywhere (chain_page 0 3)) 3 40 fts_spec 1000 ≡ none
read_overflow_chain-loops_example =
    read_overflow_chain-loops (everywhere (chain_page 0 3)) fts_spec 3 40 1000 (chain_page 0 3)
      (chain_header 0 3) self_page-IsLoop (omega arith)

three_bytes-IsFilled : IsFilled (everywhere (chain_page 3 4)) fts_spec
three_bytes-IsFilled = λ page_no page header read decoded of_type.
    let same : chain_page 3 4 ≡ page = cc in
    let known : some header ≡ some (chain_header 3 4) =
      sym decoded ∙ ap P.decode (sym same) ∙ chain_page-decode 3 4 (omega arith) (omega arith) in
    let e : header ≡ chain_header 3 4 = cc in
    let used : header.entry_count ≡ 3 = ap (λ (h : PageHeader). h.entry_count) e in omega arith

read_overflow_chain-ends_example :
    read_overflow_chain (everywhere (chain_page 3 4)) 4 40 fts_spec 41 ≢ none
read_overflow_chain-ends_example =
    read_overflow_chain-ends (everywhere (chain_page 3 4)) fts_spec 4 40 three_bytes-IsFilled

-- Keys of 100 bytes with empty bodies, one too many for a page of 512 bytes.
abbrev long_entry : LeafEntry
long_entry = record { key = replicate 100 97; value = inline [] }

abbrev full_leaf : List LeafEntry
full_leaf = long_entry ∷ long_entry ∷ long_entry ∷ long_entry ∷ long_entry ∷ []

dict_halves_fit_example :
    (0 < length (left_half full_leaf))
    × (0 < length (right_half full_leaf))
    × ((page : Bytes) × (encode_leaf xxh (left_half full_leaf) 512 fts_spec ≡ some page))
    × ((page : Bytes) × (encode_leaf xxh (right_half full_leaf) 512 fts_spec ≡ some page))
dict_halves_fit_example =
    dict_halves_fit xxh fts_spec 512 full_leaf (omega arith) (omega arith) (omega arith)
      (omega arith) (omega arith)

-- Separators of 129 bytes, as many as a page of 2048 bytes holds, and the split of a child.
abbrev wide_node : InnerNode
wide_node = record { entries = replicate 14 (replicate 129 97, 4); rightmost = 9 }

abbrev wide_after : InnerNode
wide_after =
    with_split wide_node (position (97 ∷ []) wide_node.entries) (child_for wide_node (97 ∷ []))
      (replicate 129 97) 7

abbrev wide_stored : Exec Session Ins
wide_stored =
    take_split xxh Session (txn_pages xxh 2048) fts_spec 5 wide_node (97 ∷ [])
      (split (replicate 129 97) 7)

-- Four separators of 128 bytes before four short ones, on pages of 512 bytes: without the fourth the
-- node fits, with it the node does not, nor does the half to the left of the middle entry.
abbrev long_separator : Bytes × ℕ
long_separator = (replicate 128 97, 4)

abbrev short_separator : Bytes × ℕ
short_separator = (98 ∷ [], 5)

abbrev short_separators : List (Bytes × ℕ)
short_separators = short_separator ∷ short_separator ∷ short_separator ∷ short_separator ∷ []

abbrev before_split : List (Bytes × ℕ)
before_split = long_separator ∷ long_separator ∷ long_separator ∷ short_separators

abbrev fits_on : List (Bytes × ℕ) → ℕ → Bool
fits_on cs page_size =
    is_some (encode_inner xxh (record { entries = cs; rightmost = 6 }) page_size fts_spec)

uneven_before : fits_on before_split 512 ≡ true
unfolding encode_inner is_nil
uneven_before = refl

uneven_after : fits_on (long_separator ∷ before_split) 512 ≡ false
unfolding encode_inner is_nil
uneven_after = refl

uneven_left : fits_on (take 4 (long_separator ∷ before_split)) 512 ≡ false
unfolding encode_inner is_nil
uneven_left = refl
