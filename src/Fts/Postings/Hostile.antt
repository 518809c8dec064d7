-- ===== src/Fts/Postings/Hostile.antt =====
-- crates/embedmind-core/src/index/fts.rs: what `Postings::decode` lets pass of any bytes.
use mathlib.Core.Path.{subst}
use embedmind.Prelude.{
  ℕ, zero, suc, ◌+◌, ◌*◌, ◌/◌, ◌<◌, ◌≤◌, ◌≡◌, ◌⊎◌, inl, inr, sym, ap, ◌∙◌, true, Option, none, some,
  List, [], ◌∷◌, ◌++◌, length, length-append, drop, All, ◌==◌, arith,
}
use embedmind.Error.{ok, guard, guard-true, question_ok}
use embedmind.Bytes.{Bytes, IsByte}
use embedmind.Dict.Fields.{read_u32_at}
use embedmind.Fts.{Posting, SkipEntry, PostingsLayout, entry_len, tail_off}
use embedmind.Fts.Runs.{max_tf, decode_block_run}
use embedmind.Fts.Runs.Sorted.{Valid, IsSorted, last_of, renumber}
use embedmind.Fts.Runs.Checked.{decode_block_run-Adds}
use embedmind.Fts.Postings.{read_u128_le, first_id, last_id, behind}
use embedmind.Fts.Postings.Skip.{stored_last, last_agrees, block_len, block_rounds}
use embedmind.Fts.Postings.Blocks.{drop-length, last_id_lem}

-- What a round that passed has decoded and compared.
record Passed (rounds : ℕ) (entry : SkipEntry) (layout : PostingsLayout) (body : Bytes)
    (page_no count block_count base b : ℕ) (prev : Option ℕ) (off : ℕ) (acc out : List Posting)
    : Type 0 where
  pub r : List Posting × ℕ
  pub decoded : decode_block_run layout body off (block_len count block_count b) page_no acc ≡ ok r
  pub seam : behind prev (first_id (drop (length acc) r.0)) ≡ true
  pub rest :
      block_rounds rounds entry layout body page_no count block_count base
        (suc b)
        (some (last_id (drop (length acc) r.0)))
        r.1
        r.0
      ≡ ok out

module _ (rounds : ℕ) (entry : SkipEntry) (layout : PostingsLayout) (body : Bytes)
    (page_no count block_count base b : ℕ) (prev : Option ℕ) (off : ℕ)
    (acc out : List Posting) where
  block_rounds-Passed :
      block_rounds (suc rounds) entry layout body page_no count block_count base b prev off acc
        ≡ ok out
      → Passed rounds entry layout body page_no count block_count base b prev off acc out
  unfolding block_rounds
  block_rounds-Passed h =
      let idx = 8 + b * entry_len entry in
      let (first, h1, e1) = question_ok (read_u128_le body idx page_no) _ out h in
      let (last, h2, e2) = question_ok (stored_last entry body idx page_no) _ out h1 in
      let (offset, h3, e3) =
        question_ok (read_u32_at body (idx + tail_off entry) page_no) _ out h2 in
      let (tf, h4, e4) =
        question_ok (read_u32_at body (idx + tail_off entry + 4) page_no) _ out h3 in
      let (u5, h5, e5) = question_ok (guard (base + offset == off) _) _ out h4 in
      let (r, h6, e6) =
        question_ok (decode_block_run layout body off (block_len count block_count b) page_no acc) _
          out h5 in
      let block = drop (length acc) r.0 in
      let (u7, h7, e7) = question_ok (guard (first == first_id block) _) _ out h6 in
      let (u8, h8, e8) = question_ok (guard (last_agrees last (last_id block)) _) _ out h7 in
      let (u9, h9, e9) = question_ok (guard (tf == max_tf block) _) _ out h8 in
      let (u10, h10, e10) = question_ok (guard (behind prev (first_id block)) _) _ out h9 in
      record {
        r = r;
        decoded = e6;
        seam = guard-true (behind prev (first_id block)) _ u10 e10;
        rest = h10;
      }

follow :
    (i prev : ℕ) (ps : List Posting)
    → IsSorted ps
    → (0 < length ps → prev < first_id ps)
    → Valid (suc i) prev ps
follow i prev [] v h = tt
follow i prev (p ∷ ps) (a, c, d, e, rest) h =
    (inr (omega arith, h (omega arith)), c, d, e, renumber 0 (suc i) p.record_id ps rest)

append_valid :
    (i prev : ℕ) (acc ps : List Posting)
    → Valid i prev acc
    → 0 < length acc
    → IsSorted ps
    → (0 < length ps → last_of prev acc < first_id ps)
    → Valid i prev (acc ++ ps)
unfolding last_of
append_valid i prev [] ps v full sorted h = absurd (omega arith)
append_valid i prev (p ∷ []) ps (a, c, d, e, rest) full sorted h =
    (a, c, d, e, follow i p.record_id ps sorted h)
append_valid i prev (p ∷ q ∷ acc) ps (a, c, d, e, rest) full sorted h =
    (a, c, d, e, append_valid (suc i) p.record_id (q ∷ acc) ps rest (omega arith) sorted h)

last_of-append :
    (prev : ℕ) (acc : List Posting) (p : Posting) (ps : List Posting)
    → last_of prev (acc ++ (p ∷ ps)) ≡ last_id (p ∷ ps)
unfolding last_of
last_of-append prev [] p ps = sym (last_id_lem prev p ps)
last_of-append prev (q ∷ acc) p ps = last_of-append q.record_id acc p ps

-- What the loop knows of the entries before a block.
abbrev pub Linked : Option ℕ → List Posting → Type 0
Linked prev acc = ((prev ≡ none) × (acc ≡ [])) ⊎ ((prev ≡ some (last_of 0 acc)) × (0 < length acc))

behind_lt : (prev id : ℕ) → behind (some prev) id ≡ true → prev < id
unfolding behind
behind_lt prev id h = ground arith

one_block :
    (prev : Option ℕ) (acc ps : List Posting)
    → Linked prev acc
    → IsSorted acc
    → IsSorted ps
    → behind prev (first_id ps) ≡ true
    → IsSorted (acc ++ ps)
one_block prev acc ps (inl (none_yet, empty)) sorted_acc sorted order =
    subst (λ (l : List Posting). IsSorted (l ++ ps)) (sym empty) sorted
one_block prev acc ps (inr (last, full)) sorted_acc sorted order =
    let order' : behind (some (last_of 0 acc)) (first_id ps) ≡ true = rw last at order in
    append_valid 0 0 acc ps sorted_acc full sorted
      (λ s. behind_lt (last_of 0 acc) (first_id ps) order')

Linked-next : (acc ps : List Posting) → 0 < length ps → Linked (some (last_id ps)) (acc ++ ps)
Linked-next acc [] h = absurd (omega arith)
Linked-next acc (p ∷ ps) h =
    (inr (
      ap (λ n. some n) (sym (last_of-append 0 acc p ps)),
      omega (arith, length-append acc (p ∷ ps)),
    ))

block_len_pos :
    (count block_count b : ℕ)
    → block_count ≡ (count + 127) / 128
    → b < block_count
    → 0 < block_len count block_count b
unfolding block_len
block_len_pos count block_count b e h = ground arith

pub block_rounds-IsSorted :
    (rounds : ℕ) (entry : SkipEntry) (layout : PostingsLayout) (body : Bytes)
    (page_no count block_count base b : ℕ) (prev : Option ℕ) (off : ℕ) (acc out : List Posting)
    → All IsByte body
    → block_count ≡ (count + 127) / 128
    → b + rounds ≤ block_count
    → Linked prev acc
    → IsSorted acc
    → block_rounds rounds entry layout body page_no count block_count base b prev off acc ≡ ok out
    → IsSorted out
block_rounds-IsSorted zero entry layout body page_no count block_count base b prev off acc out bytes
      e le linked sorted h =
    let h' : ok acc ≡ ok out = (unfold block_rounds in h) in
    let same : acc ≡ out = cc in subst IsSorted same sorted
block_rounds-IsSorted (suc rounds) entry layout body page_no count block_count base b prev off acc
      out bytes e le linked sorted h =
    let p =
      block_rounds-Passed rounds entry layout body page_no count block_count base b prev off acc out
        h in
    let (ps, added, valid, len) =
      decode_block_run-Adds layout body off (block_len count block_count b) page_no acc p.r bytes
        p.decoded in
    let block : drop (length acc) p.r.0 ≡ ps =
      ap (λ (l : List Posting). drop (length acc) l) added ∙ drop-length acc ps in
    let order : behind prev (first_id ps) ≡ true = rw block at p.seam in
    let full : 0 < length ps = omega (arith, block_len_pos count block_count b e (omega arith)) in
    let sorted' = one_block prev acc ps linked sorted valid order in
    let linked' = Linked-next acc ps full in
    let rest : block_rounds rounds entry layout body page_no count block_count base (suc b)
          (some (last_id ps)) p.r.1 (acc ++ ps)
        ≡ ok out =
      rw (block, added) at p.rest in
    block_rounds-IsSorted rounds entry layout body page_no count block_count base (suc b)
      (some (last_id ps)) p.r.1 (acc ++ ps) out bytes e (omega arith) linked' sorted' rest
