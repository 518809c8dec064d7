-- ===== src/Dict/Get.antt =====
-- crates/embedmind-core/src/index/dict.rs: `read_overflow_chain`, `child_for` and `get`. The loop of
-- `read_overflow_chain` has no bound of its own: it runs for a number of turns here, and `none` says
-- that it has not come to an end in them.
pub mod Turns
use Prim.Native.Nat.{Ordering}
use embedmind.Prelude.{
  ℕ, zero, suc, ◌+◌, ◌-◌, Bool, ◌||◌, not, Option, none, some, List, [], ◌∷◌, ◌++◌, length, ltb,
  ◌==◌, if◌then◌else◌,
}
use embedmind.Error.{Result, ok, err, malformed_page, guard, ok_or, ◌>>=◌, ◌>>◌}
use embedmind.Bytes.{Bytes, get_range}
use embedmind.Bytes.Order.{bytes_cmp}
use embedmind.Format.{page_header_len}
use embedmind.Format.Page as P
use embedmind.Format.Page.{PageHeader}
use embedmind.Btree.Lookup.{PageSource, child_of}
use embedmind.Dict.{
  DictSpec, max_depth, Value, inline, overflow, LeafEntry, InnerNode, Node, leaf, inner,
  overflow_capacity, same_type,
}
use embedmind.Dict.Codec.{decode_node}

-- One page of a chain, checked: its header and its payload.
unfoldable pub chain_page : PageSource → DictSpec → ℕ → ℕ → Result (PageHeader × Bytes)
chain_page src spec page_no remaining = do
  page ← src.page page_no
  header ← ok_or (P.decode page) (malformed_page page_no "dict overflow header")
  guard (same_type header.page_type spec.overflow)
      (malformed_page page_no "not a dict overflow page")
  guard
      (not (
        ltb remaining header.entry_count
        || ltb (overflow_capacity src.page_size) header.entry_count))
      (malformed_page page_no "dict overflow payload length")
  payload ←
      ok_or (get_range page page_header_len header.entry_count)
        (malformed_page page_no "dict overflow payload bounds")
  ok (header, payload)

-- `out.extend_from_slice(payload)`, in front of what the rest of the chain gives.
abbrev pub prepend : Bytes → Option (Result Bytes) → Option (Result Bytes)
prepend payload none = none
prepend payload (some (err failure)) = some (err failure)
prepend payload (some (ok rest)) = some (ok (payload ++ rest))

-- The end of a turn; `onward` runs the turns that are left.
unfoldable pub end_turn :
    (ℕ → ℕ → Option (Result Bytes)) → ℕ → ℕ → Result (PageHeader × Bytes) → Option (Result Bytes)
end_turn onward page_no remaining (err failure) = some (err failure)
end_turn onward page_no remaining (ok (header, payload)) =
    if remaining - header.entry_count == 0
    then some (ok payload)
    else if header.next_page == 0
    then some (err (malformed_page page_no "broken dict overflow chain"))
    else prepend payload (onward header.next_page (remaining - header.entry_count))

-- The loop of `read_overflow_chain`.
unfoldable pub read_chain : PageSource → DictSpec → ℕ → ℕ → ℕ → Option (Result Bytes)
unfolding end_turn
read_chain src spec zero page_no remaining = none
read_chain src spec (suc turns) page_no remaining =
    end_turn (λ next left. read_chain src spec turns next left) page_no remaining
      (chain_page src spec page_no remaining)

-- `read_overflow_chain`
unfoldable pub read_overflow_chain : PageSource → ℕ → ℕ → DictSpec → ℕ → Option (Result Bytes)
read_overflow_chain src first_page total_len spec turns =
    read_chain src spec turns first_page total_len

-- `child_for`
unfoldable pub child_for : InnerNode → Bytes → ℕ
child_for node key = child_of node.entries node.rightmost key

-- `binary_search_by` on entries in order: where the key is, or where it belongs.
unfoldable pub find : Bytes → List LeafEntry → Option Value
find key [] = none
find key (e ∷ es) =
    let rest = find key es in
    elim (bytes_cmp e.key key) [
      | Ordering.lt ↦ rest
      | Ordering.eq ↦ some e.value
      | Ordering.gt ↦ none
    ]

abbrev pub with_page : ℕ → Option (Result Bytes) → Option (Result (Option (Bytes × ℕ)))
with_page page_no none = none
with_page page_no (some (err failure)) = some (err failure)
with_page page_no (some (ok body)) = some (ok (some (body, page_no)))

-- The body of a value that was found.
unfoldable pub resolve :
    PageSource → DictSpec → ℕ → ℕ → Option Value → Option (Result (Option (Bytes × ℕ)))
resolve src spec turns page_no none = some (ok none)
resolve src spec turns page_no (some (inline body)) = some (ok (some (body, page_no)))
resolve src spec turns page_no (some (overflow total_len first_page)) =
    with_page first_page (read_overflow_chain src first_page total_len spec turns)

-- What a level does with its node, `down` being the levels below.
unfoldable pub visit :
    PageSource
    → DictSpec
    → Bytes
    → ℕ
    → (ℕ → Option (Result (Option (Bytes × ℕ))))
    → ℕ
    → Result Node
    → Option (Result (Option (Bytes × ℕ)))
unfolding resolve
visit src spec key turns down page_no (err failure) = some (err failure)
visit src spec key turns down page_no (ok (leaf entries)) =
    resolve src spec turns page_no (find key entries)
visit src spec key turns down page_no (ok (inner node)) = down (child_for node key)

-- The loop of `get`.
unfoldable pub descend :
    PageSource → DictSpec → Bytes → ℕ → ℕ → ℕ → Option (Result (Option (Bytes × ℕ)))
unfolding visit
descend src spec key turns zero page_no =
    some (err (malformed_page page_no "dict tree deeper than MAX_DEPTH"))
descend src spec key turns (suc levels) page_no =
    visit src spec key turns (λ child. descend src spec key turns levels child) page_no
      (src.page page_no >>= λ page. decode_node page page_no spec)

-- `get`
unfoldable pub get : PageSource → DictSpec → ℕ → Bytes → ℕ → Option (Result (Option (Bytes × ℕ)))
unfolding descend
get src spec root key turns =
    if root == 0 then some (ok none) else descend src spec key turns max_depth root
