-- ===== src/Dict/Chain.antt =====
-- crates/embedmind-core/src/index/dict.rs: `write_overflow_chain`, `chain_pages` and `make_value`, the
-- values that stand in chains of pages, over the pages of a transaction.
use embedmind.Prelude.{
  ℕ, zero, suc, ◌+◌, ◌-◌, ◌/◌, ◌^◌, List, [], ◌∷◌, length, replicate, ltb, leb, ◌==◌, if◌then◌else◌,
}
use embedmind.Error.{malformed_page, internal, invalid_argument, ok_or}
use embedmind.Effect.{Exec, pure, raise, require, lift, ◌>>=◌, ◌>>◌}
use embedmind.Bytes.{Bytes, write_bytes}
use embedmind.Format.{Xxh3, page_header_len, stamp_page_checksum}
use embedmind.Format.Page as P
use embedmind.Format.Page.{PageHeader, encode_into}
use embedmind.Btree.Pieces.{chunks, first_or_zero}
use embedmind.Btree.Insert.{TxnPages}
use embedmind.Dict.{
  DictSpec, Value, inline, overflow, max_inline_body, overflow_capacity, same_type,
}

-- The chunks of a body; an empty body has one, which is empty.
unfoldable pub chunks_of : ℕ → Bytes → List Bytes
chunks_of cap [] = [] ∷ []
chunks_of cap (b ∷ bs) = chunks (length (b ∷ bs)) cap (b ∷ bs)

unfoldable pub overflow_page : Xxh3 → DictSpec → ℕ → Bytes → ℕ → Bytes
overflow_page x spec page_size chunk next_page =
    let zeros : Bytes = replicate page_size 0 in
    let header : PageHeader = record {
      page_type = spec.overflow;
      entry_count = length chunk;
      next_page = next_page;
    } in
    stamp_page_checksum x (write_bytes (encode_into header zeros) page_header_len chunk)

module _ (x : Xxh3) (S : Type 0) (T : TxnPages S) (spec : DictSpec) where
  -- `write_overflow_chain`, its two loops first.
  unfoldable pub claim_pages : ℕ → List ℕ → Exec S (List ℕ)
  claim_pages zero reuse = pure []
  claim_pages (suc n) (p ∷ reuse) = do rest ← claim_pages n reuse; pure (p ∷ rest)
  claim_pages (suc n) [] = do p ← T.allocate_page; rest ← claim_pages n []; pure (p ∷ rest)

  unfoldable pub write_chunks : List Bytes → List ℕ → Exec S (Unit {0})
  write_chunks [] pages = pure tt
  write_chunks (c ∷ cs) [] = raise (internal "index out of bounds")
  write_chunks (c ∷ cs) (p ∷ ps) = do
    T.write_page p (overflow_page x spec T.page_size c (first_or_zero ps))
    write_chunks cs ps

  unfoldable pub first_page : List ℕ → Exec S ℕ
  first_page [] = raise (internal "empty dict overflow chain")
  first_page (p ∷ ps) = pure p

  unfoldable pub write_overflow_chain : Bytes → List ℕ → Exec S ℕ
  unfolding first_page
  write_overflow_chain body reuse =
      let cs = chunks_of (overflow_capacity T.page_size) body in
      (do pages ← claim_pages (length cs) reuse; write_chunks cs pages; first_page pages)

  -- `chain_pages`
  onward : ℕ → Exec S (List ℕ) → Exec S (List ℕ)
  onward zero rest = pure []
  onward (suc next_page) rest = rest

  unfoldable pub chain_from : ℕ → ℕ → Exec S (List ℕ)
  unfolding onward
  chain_from zero page_no = pure []
  chain_from (suc n) page_no = do
    page ← T.read_page page_no
    header ← lift (ok_or (P.decode page) (malformed_page page_no "dict overflow header"))
    require (same_type header.page_type spec.overflow)
        (malformed_page page_no "not a dict overflow page")
    rest ← onward header.next_page (chain_from n header.next_page)
    pure (page_no ∷ rest)

  unfoldable pub chain_pages : ℕ → ℕ → Exec S (List ℕ)
  chain_pages first_page total_len =
      let cap = overflow_capacity T.page_size in
      let pages = (total_len + (cap - 1)) / cap in
      chain_from (if pages == 0 then 1 else pages) first_page

  -- `make_value`
  unfoldable pub make_value : Bytes → List ℕ → Exec S Value
  make_value body reuse =
      if leb (length body) (max_inline_body spec T.page_size) then pure (inline body) else (do
        require (ltb (length body) (2 ^ 32)) (invalid_argument "dict value exceeds u32")
        first_page ← write_overflow_chain body reuse
        pure (overflow (length body) first_page))
