-- ===== src/Btree/Chains.antt =====
-- crates/embedmind-core/src/storage/btree.rs, `write_overflow` and `read_overflow`: about the pages
-- of a chain, over any transaction that keeps its pages.
use embedmind.Prelude.{
  ℕ, zero, suc, ◌+◌, ◌-◌, ◌^◌, ◌≤◌, ◌<◌, ◌≡◌, ◌≢◌, refl, ap, ◌∙◌, sym, false, ◌||◌, ◌&&◌, some,
  List, [], ◌∷◌, ◌++◌, length, length-append, replicate, length-replicate, All, ltb, ◌==◌, arith,
}
use embedmind.Error.{Result, ok}
use embedmind.Effect.{bind_ok}
use embedmind.Bytes.{Bytes, get_range}
use embedmind.Bytes.Range.{get_range-write_self, get_range-write_below, length-write_bytes}
use embedmind.Format.{page_header_len}
use embedmind.Format.Page as P
use embedmind.Format.Page.{PageType, PageHeader, encode_into}
use embedmind.Format.Page.Laws.{decode-kept, length-encode_into}
use embedmind.Btree.{overflow_capacity}
use embedmind.Btree.Body.{SameBody}
use embedmind.Btree.Lookup.{PageSource, is_overflow, read_chain}
use embedmind.Btree.Insert.{TxnPages, write_chunks}
use embedmind.Btree.Pieces.{first_or_zero, overflow_page}

-- What a transaction promises: a read shows the state and keeps it, a write shows at its page, up
-- to the checksum, and nowhere else, and an allocation gives the next page.
pub record IsTxn (S : Type 0) (T : TxnPages S) (shown : S → ℕ → Result Bytes) (count : S → ℕ)
    : Type 0 where
  pub read : (p : ℕ) (s : S) → T.read_page p s ≡ (shown s p, s)
  pub write :
      (p : ℕ) (b : Bytes) (s : S)
      → length b ≡ T.page_size
      → 0 < p
      → p < count s
      → (T.write_page p b s).0 ≡ ok tt
  pub write_count : (p : ℕ) (b : Bytes) (s : S) → count (T.write_page p b s).1 ≡ count s
  pub write_self :
      (p : ℕ) (b : Bytes) (s : S)
      → length b ≡ T.page_size
      → 0 < p
      → p < count s
      → (kept : Bytes) × (shown (T.write_page p b s).1 p ≡ ok kept) × SameBody kept b
  pub write_other :
      (p : ℕ) (b : Bytes) (s : S) (q : ℕ) → p ≢ q → shown (T.write_page p b s).1 q ≡ shown s q
  pub alloc : (s : S) → count s + 1 < 2 ^ 64 → (T.allocate_page s).0 ≡ ok (count s)
  pub alloc_count : (s : S) → count s + 1 < 2 ^ 64 → count (T.allocate_page s).1 ≡ count s + 1
  pub alloc_other :
      (s : S) (q : ℕ)
      → count s + 1 < 2 ^ 64
      → q < count s
      → shown (T.allocate_page s).1 q ≡ shown s q
  pub set_root : (r : ℕ) (s : S) → T.root_btree_page (T.set_root_btree_page r s) ≡ r
  pub set_root_shown : (r : ℕ) (s : S) (q : ℕ) → shown (T.set_root_btree_page r s) q ≡ shown s q

-- The page header and the payload of an overflow page.
abbrev chain_header : Bytes → ℕ → PageHeader
chain_header chunk next_page = record {
  page_type = PageType.overflow;
  entry_count = length chunk;
  next_page = next_page;
}

length-overflow_page :
    (page_size : ℕ) (chunk : Bytes) (next_page : ℕ)
    → length (overflow_page page_size chunk next_page) ≡ page_size
unfolding overflow_page
length-overflow_page page_size chunk next_page =
    let zeros : Bytes = replicate page_size 0 in
    length-write_bytes (encode_into (chain_header chunk next_page) zeros) 16 chunk
    ∙ length-encode_into (chain_header chunk next_page) zeros
    ∙ length-replicate {A = ℕ} page_size 0

module _ (page_size : ℕ) (chunk : Bytes) (next_page : ℕ) (kept : Bytes) (big : 24 ≤ page_size)
    (small : page_size < 2 ^ 32) (fits : length chunk ≤ overflow_capacity page_size)
    (link : next_page < 2 ^ 64)
    (same : SameBody kept (overflow_page page_size chunk next_page)) where
  chain_page_header : P.decode kept ≡ some (chain_header chunk next_page)
  unfolding overflow_page
  chain_page_header =
      let zeros : Bytes = replicate page_size 0 in
      let zeros_len = length-replicate {A = ℕ} page_size 0 in
      let h = chain_header chunk next_page in
      let size = length-overflow_page page_size chunk next_page in
      decode-kept h zeros kept (record { entry_count = omega arith; next_page = link })
        (omega arith) (same.0 ∙ size ∙ sym zeros_len)
        (λ o n le.
          same.1 o n (omega arith) ∙ get_range-write_below (encode_into h zeros) 16 chunk o n le)

  chain_page_payload : get_range kept page_header_len (length chunk) ≡ some chunk
  unfolding overflow_page
  chain_page_payload =
      let zeros : Bytes = replicate page_size 0 in
      let zeros_len = length-replicate {A = ℕ} page_size 0 in
      let h = chain_header chunk next_page in
      let size = length-overflow_page page_size chunk next_page in
      same.1 16 (length chunk) (omega arith)
      ∙ get_range-write_self (encode_into h zeros) 16 chunk
          (omega (arith, length-encode_into h zeros))

-- Pages in a row.
abbrev pub row : ℕ → ℕ → List ℕ
row c zero = []
row c (suc n) = c ∷ row (suc c) n

abbrev pub bytes_of : List Bytes → Bytes
bytes_of [] = []
bytes_of (c ∷ cs) = c ++ bytes_of cs

-- Chunks are not empty and fit a page.
abbrev pub IsChunk : ℕ → Bytes → Type 0
IsChunk most c = (0 < length c) × (length c ≤ most)

taken_fits :
    (n before most : ℕ)
    → 0 < n
    → n ≤ before
    → n ≤ most
    → (n == 0 || (ltb before n || ltb most n)) ≡ false
taken_fits n before most a b c = ground arith

link_lem : (n next_page : ℕ) → (0 < n → next_page ≢ 0) → (ltb 0 n && next_page == 0) ≡ false
link_lem zero next_page h = refl
link_lem (suc n) next_page h = let real = h (omega arith) in ground arith

-- One turn of the loop that reads a chain.
read_chain_step :
    (src : PageSource) (turns total page_no : ℕ) (page chunk rest : Bytes) (next_page : ℕ)
    → src.page page_no ≡ ok page
    → P.decode page ≡ some (chain_header chunk next_page)
    → get_range page page_header_len (length chunk) ≡ some chunk
    → IsChunk (overflow_capacity src.page_size) chunk
    → total ≡ length chunk + length rest
    → (0 < length rest → next_page ≢ 0)
    → read_chain src turns next_page (length rest) ≡ ok rest
    → read_chain src (suc turns) page_no total ≡ ok (chunk ++ rest)
unfolding read_chain is_overflow
read_chain_step src turns zero page_no page chunk rest next_page there header payload (pos, most) e
      link more =
    absurd (omega arith)
read_chain_step src turns (suc before) page_no page chunk rest next_page there header payload
      (pos, most) e link more =
    let left : suc before - length chunk ≡ length rest = omega arith in
    let fits =
      taken_fits (length chunk) (suc before) (overflow_capacity src.page_size) pos (omega arith)
        most in
    let linked = link_lem (length rest) next_page link in
    rw (there, header, fits, payload, left, linked, more) refl

-- The pages of a transaction as a look-up sees them.
abbrev pub source : (S : Type 0) → TxnPages S → (ℕ → Result Bytes) → PageSource
source S T pages = record { page = pages; page_size = T.page_size; format_version = 0 }

module _ (S : Type 0) (T : TxnPages S) (shown : S → ℕ → Result Bytes) (count : S → ℕ)
    (law : IsTxn S T shown count) (big : 32 ≤ T.page_size) (small : T.page_size ≤ 65536) where
  chunks_first :
      (b : Bytes) (bs : List Bytes) (c : ℕ) (s : S)
      → 0 < c
      → c < count s
      → write_chunks S T (b ∷ bs) (row c (suc (length bs))) s
        ≡ write_chunks S T bs
            (row (suc c) (length bs))
            (T.write_page c
              (overflow_page T.page_size b (first_or_zero (row (suc c) (length bs))))
              s).1
  unfolding write_chunks
  chunks_first b bs c s pos room =
      let page = overflow_page T.page_size b (first_or_zero (row (suc c) (length bs))) in
      bind_ok (T.write_page c page) (λ u. write_chunks S T bs (row (suc c) (length bs))) s tt
        (law.write c page s
          (length-overflow_page T.page_size b (first_or_zero (row (suc c) (length bs)))) pos room)

  abbrev pub after_chunks : List Bytes → ℕ → S → S
  after_chunks cs c s = (write_chunks S T cs (row c (length cs)) s).1

  pub write_chunks-ok :
      (cs : List Bytes) (c : ℕ) (s : S)
      → 0 < c
      → c + length cs ≤ count s
      → ((write_chunks S T cs (row c (length cs)) s).0 ≡ ok tt)
        × (count (after_chunks cs c s) ≡ count s)
        × ((q : ℕ) → q < c → shown (after_chunks cs c s) q ≡ shown s q)
  unfolding write_chunks
  write_chunks-ok [] c s pos room = (refl, refl, λ q h. refl)
  write_chunks-ok (b ∷ bs) c s pos room =
      let page = overflow_page T.page_size b (first_or_zero (row (suc c) (length bs))) in
      let next = (T.write_page c page s).1 in
      let kept_count = law.write_count c page s in
      let (a, n, q) = write_chunks-ok bs (suc c) next (omega arith) (omega arith) in
      let first = chunks_first b bs c s pos (omega arith) in
      let after : after_chunks (b ∷ bs) c s ≡ after_chunks bs (suc c) next = ap (λ r. r.1) first in
      rw (first, after)
        (a, n ∙ kept_count, λ p h. q p (omega arith) ∙ law.write_other c page s p (omega arith))

  row_link :
      (bs : List Bytes) (c : ℕ)
      → All (IsChunk (overflow_capacity T.page_size)) bs
      → 0 < length (bytes_of bs)
      → first_or_zero (row (suc c) (length bs)) ≢ 0
  row_link [] c v h = absurd (omega arith)
  row_link (b ∷ bs) c v h = omega arith

  row_bound : (n c : ℕ) → c + n < 2 ^ 64 → first_or_zero (row c n) < 2 ^ 64
  row_bound zero c h = omega arith
  row_bound (suc n) c h = omega arith

  pub read_chain-write_chunks :
      (cs : List Bytes) (c : ℕ) (s : S) (turns : ℕ)
      → All (IsChunk (overflow_capacity T.page_size)) cs
      → 0 < c
      → c + length cs ≤ count s
      → count s < 2 ^ 64
      → length (bytes_of cs) ≤ turns
      → (later : ℕ → Result Bytes)
      → ((q : ℕ) → q < count s → later q ≡ shown (after_chunks cs c s) q)
      → read_chain
          (source S T later)
          turns
          (first_or_zero (row c (length cs)))
          (length (bytes_of cs))
        ≡ ok (bytes_of cs)
  unfolding write_chunks read_chain
  read_chain-write_chunks [] c s zero v pos room word enough later kept = refl
  read_chain-write_chunks [] c s (suc turns) v pos room word enough later kept = refl
  read_chain-write_chunks (b ∷ bs) c s zero (v, vs) pos room word enough later kept =
      absurd (omega (arith, length-append b (bytes_of bs)))
  read_chain-write_chunks (b ∷ bs) c s (suc turns) (v, vs) pos room word enough later kept =
      let link = first_or_zero (row (suc c) (length bs)) in
      let page = overflow_page T.page_size b link in
      let size = length-overflow_page T.page_size b link in
      let next = (T.write_page c page s).1 in
      let kept_count = law.write_count c page s in
      let (image, there, same) = law.write_self c page s size pos (omega arith) in
      let (a, n, older) = write_chunks-ok bs (suc c) next (omega arith) (omega arith) in
      let total = length-append b (bytes_of bs) in
      let word' = row_bound (length bs) (suc c) (omega arith) in
      let after : after_chunks (b ∷ bs) c s ≡ after_chunks bs (suc c) next =
        ap (λ r. r.1) (chunks_first b bs c s pos (omega arith)) in
      let kept' : (q : ℕ) → q < count s → later q ≡ shown (after_chunks bs (suc c) next) q =
        λ q h. kept q h ∙ ap (λ st. shown st q) after in
      let more =
        read_chain-write_chunks bs (suc c) next turns vs (omega arith) (omega arith) (omega arith)
          (omega arith) later (λ q h. kept' q (omega arith)) in
      read_chain_step (source S T later) turns (length (b ++ bytes_of bs)) c image b (bytes_of bs)
        link (kept' c (omega arith) ∙ older c (omega arith) ∙ there)
        (chain_page_header T.page_size b link image (omega arith) (omega arith) v.1 word' same)
        (chain_page_payload T.page_size b link image (omega arith) (omega arith) v.1 word' same) v
        total (row_link bs c vs) more
