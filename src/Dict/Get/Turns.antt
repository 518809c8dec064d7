-- ===== src/Dict/Get/Turns.antt =====
-- crates/embedmind-core/src/index/dict.rs, `read_overflow_chain`: how many turns its loop takes.
use embedmind.Prelude.{
  ℕ, zero, suc, ◌-◌, ◌<◌, ◌≤◌, ◌≡◌, ◌≢◌, refl, true, false, ◌||◌, not, Option, none, some, [], ap,
  length, ltb, ◌==◌, Bool-cases, inl, inr, arith,
}
use embedmind.Error.{Result, ok, err, ok_or, guard, question_ok, guard-true, ok_or-some}
use embedmind.Bytes.{Bytes, get_range}
use embedmind.Format.{page_header_len}
use embedmind.Format.Page as P
use embedmind.Format.Page.{PageHeader}
use embedmind.Btree.Lookup.{PageSource}
use embedmind.Dict.{DictSpec, overflow_capacity, same_type}
use embedmind.Dict.Get.{chain_page, prepend, end_turn, read_chain, read_overflow_chain}

-- A page of the chain that holds nothing and points to itself.
pub record IsLoop (src : PageSource) (spec : DictSpec) (page_no : ℕ) (page : Bytes)
    (header : PageHeader) : Type 0 where
  pub read : src.page page_no ≡ ok page
  pub decoded : P.decode page ≡ some header
  pub of_type : same_type header.page_type spec.overflow ≡ true
  pub empty : header.entry_count ≡ 0
  pub next : header.next_page ≡ page_no
  pub real : 0 < page_no
  pub long : page_header_len ≤ length page

empty_range : (page : Bytes) (off : ℕ) → off ≤ length page → get_range page off 0 ≡ some []
unfolding get_range
empty_range page off h = ground arith

loop_page :
    (src : PageSource) (spec : DictSpec) (page_no remaining : ℕ) (page : Bytes)
    (header : PageHeader)
    → IsLoop src spec page_no page header
    → chain_page src spec page_no remaining ≡ ok (header, [])
unfolding chain_page
loop_page src spec page_no remaining page header h =
    let small : not (
          ltb remaining header.entry_count
          || ltb (overflow_capacity src.page_size) header.entry_count)
        ≡ true =
      let e = h.empty in ground arith in
    let nothing : get_range page page_header_len header.entry_count ≡ some [] =
      rw h.empty (empty_range page page_header_len h.long) in
    rw (h.read, h.decoded, h.of_type, small, nothing) refl

-- Where a page of the chain holds no byte and is its own next page, the loop that still has bytes to
-- read comes to no end, however many turns it takes.
pub read_overflow_chain-loops :
    (src : PageSource) (spec : DictSpec) (page_no total_len turns : ℕ) (page : Bytes)
    (header : PageHeader)
    → IsLoop src spec page_no page header
    → 0 < total_len
    → read_overflow_chain src page_no total_len spec turns ≡ none
unfolding read_overflow_chain read_chain end_turn
read_overflow_chain-loops src spec page_no total_len zero page header h more = refl
read_overflow_chain-loops src spec page_no total_len (suc turns) page header h more =
    let ih = read_overflow_chain-loops src spec page_no total_len turns page header h more in
    let left : total_len - header.entry_count ≡ total_len = let e = h.empty in omega arith in
    let going : (total_len == 0) ≡ false = ground arith in
    let linked : (page_no == 0) ≡ false = let r = h.real in ground arith in
    rw (loop_page src spec page_no total_len page header h, left, going, h.next, linked, ih) refl

-- Every page of a chain holds a byte at least.
abbrev pub IsFilled : PageSource → DictSpec → Type 0
IsFilled src spec =
    (page_no : ℕ) (page : Bytes) (header : PageHeader)
    → src.page page_no ≡ ok page
    → P.decode page ≡ some header
    → same_type header.page_type spec.overflow ≡ true
    → 0 < header.entry_count

bounded :
    (remaining used most : ℕ) → not (ltb remaining used || ltb most used) ≡ true → used ≤ remaining
bounded remaining used most h = ground arith

ended {ℓ} : {A : Type ℓ} (a : A) → some a ≡ none → ⊥
ended a h = cc

chain_page-progress :
    (src : PageSource) (spec : DictSpec) (page_no remaining : ℕ) (r : PageHeader × Bytes)
    → IsFilled src spec
    → chain_page src spec page_no remaining ≡ ok r
    → (0 < r.0.entry_count) × (r.0.entry_count ≤ remaining)
unfolding chain_page
chain_page-progress src spec page_no remaining r filled h =
    let (page, h1, e1) = question_ok (src.page page_no) _ r h in
    let (header, h2, e2) = question_ok (ok_or (P.decode page) _) _ r h1 in
    let (u, h3, e3) = question_ok (guard (same_type header.page_type spec.overflow) _) _ r h2 in
    let (v, h4, e4) =
      question_ok
        (guard
          (not (
            ltb remaining header.entry_count
            || ltb (overflow_capacity src.page_size) header.entry_count))
          _)
        _ r h3 in
    let (payload, h5, e5) =
      question_ok (ok_or (get_range page page_header_len header.entry_count) _) _ r h4 in
    let same : (header, payload) ≡ r = cc in
    let first : header ≡ r.0 = ap (λ t. t.0) same in
    let pos =
      filled page_no page header e1 (ok_or-some (P.decode page) _ header e2)
        (guard-true (same_type header.page_type spec.overflow) _ u e3) in
    let within =
      guard-true
        (not (
          ltb remaining header.entry_count
          || ltb (overflow_capacity src.page_size) header.entry_count))
        _ v e4 in
    rw (← first)
      (pos, bounded remaining header.entry_count (overflow_capacity src.page_size) within)

prepend-none :
    (payload : Bytes) (rest : Option (Result Bytes)) → prepend payload rest ≡ none → rest ≡ none
prepend-none payload none h = refl
prepend-none payload (some (err e)) h = cc
prepend-none payload (some (ok b)) h = cc

end_turn-none :
    (onward : ℕ → ℕ → Option (Result Bytes)) (page_no remaining : ℕ)
    (r : Result (PageHeader × Bytes))
    → end_turn onward page_no remaining r ≡ none
    → (h : PageHeader × Bytes) × (r ≡ ok h)
      × (onward h.0.next_page (remaining - h.0.entry_count) ≡ none)
unfolding end_turn
end_turn-none onward page_no remaining (err e) h = cc
end_turn-none onward page_no remaining (ok (header, payload)) h =
    elim (Bool-cases (remaining - header.entry_count == 0)) [
      | inl done ↦ absurd (ended _ (rw done at h))
      | inr more ↦ elim (Bool-cases (header.next_page == 0)) [
        | inl broken ↦ absurd (ended _ (rw (more, broken) at h))
        | inr linked ↦ ((header, payload), refl, prepend-none payload _ (rw (more, linked) at h))
      ]
    ]

read_chain-ends :
    (src : PageSource) (spec : DictSpec) (turns page_no remaining : ℕ)
    → IsFilled src spec
    → remaining < turns
    → read_chain src spec turns page_no remaining ≢ none
unfolding read_chain
read_chain-ends src spec zero page_no remaining filled lt h = absurd (omega arith)
read_chain-ends src spec (suc turns) page_no remaining filled lt h =
    let (r, e, rest) =
      end_turn-none (λ next left. read_chain src spec turns next left) page_no remaining
        (chain_page src spec page_no remaining) h in
    let (pos, within) = chain_page-progress src spec page_no remaining r filled e in
    read_chain-ends src spec turns r.0.next_page (remaining - r.0.entry_count) filled (omega arith)
      rest

-- Where every page of the overflow type holds a byte at least, the loop comes to its end, with a body
-- or an error, within one turn more than there are bytes to read.
pub read_overflow_chain-ends :
    (src : PageSource) (spec : DictSpec) (first_page total_len : ℕ)
    → IsFilled src spec
    → read_overflow_chain src first_page total_len spec (suc total_len) ≢ none
unfolding read_overflow_chain
read_overflow_chain-ends src spec first_page total_len filled =
    read_chain-ends src spec (suc total_len) first_page total_len filled (omega arith)
