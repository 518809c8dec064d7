-- ===== src/Fts/Runs/Checked.antt =====
-- crates/embedmind-core/src/index/fts.rs: what `decode_delta_run` and `decode_for_block` let pass of
-- any bytes.
use embedmind.Prelude.{
  ℕ, zero, suc, ◌+◌, ◌*◌, ◌^◌, ◌<◌, ◌≡◌, ◌⊎◌, inl, inr, refl, sym, ap, ◌∙◌, ◌&&◌, List, [], ◌∷◌,
  ◌++◌, append-nil, append_assoc, length, All, leb, get_elem?, arith,
}
use embedmind.Error.{ok, ok_or, guard, question_ok}
use embedmind.Bytes.{Bytes, IsByte}
use embedmind.Fts.{
  Posting, PostingsLayout, fixed_width, delta_varint, frame_of_reference, delta_varint_skip,
}
use embedmind.Fts.Varint.{read_varint}
use embedmind.Fts.Fixed.{checked, read_fixed}
use embedmind.Fts.Runs.{
  next_id, term_freq_of, delta_rounds, decode_delta_run, for_rounds, decode_for_block,
  decode_block_run,
}
use embedmind.Fts.Runs.Bounds.{read_varint-lt, read_fixed-lt}
use embedmind.Fts.Runs.Sorted.{Steps, Valid}

-- An identifier that passes stands behind the one before it.
next_id-Steps :
    (page_no i prev delta id : ℕ)
    → ((i ≡ 0) × (prev ≡ 0)) ⊎ (0 < i)
    → delta < 2 ^ 128
    → next_id page_no i prev delta ≡ ok id
    → Steps i prev id × (id < 2 ^ 128)
unfolding next_id
next_id-Steps page_no i prev delta id (inl (a, b)) lt h = (inl (a, b), ground arith)
next_id-Steps page_no i prev delta id (inr a) lt h = (inr (a, ground arith), ground arith)

term_freq_of_bounds :
    (page_no value tf : ℕ) → term_freq_of page_no value ≡ ok tf → (0 < tf) × (tf < 2 ^ 32)
unfolding term_freq_of
term_freq_of_bounds page_no value tf h = ground arith

-- What a run has added to the entries `acc` that were there.
abbrev pub Adds : ℕ → ℕ → ℕ → List Posting → List Posting → Type 0
Adds n i prev acc out = (ps : List Posting) × (out ≡ acc ++ ps) × Valid i prev ps × (length ps ≡ n)

Adds-one :
    (n i prev id tf : ℕ) (acc out : List Posting)
    → Steps i prev id
    → id < 2 ^ 128
    → (0 < tf) × (tf < 2 ^ 32)
    → Adds n (suc i) id (acc ++ record { record_id = id; term_freq = tf } ∷ []) out
    → Adds (suc n) i prev acc out
Adds-one n i prev id tf acc out s lt (pos, small) (ps, e, v, len) =
    let p : Posting = record { record_id = id; term_freq = tf } in
    (p ∷ ps, e ∙ append_assoc acc (p ∷ []) ps, (s, lt, pos, small, v), ap suc len)

delta_rounds-Adds :
    (n : ℕ) (body : Bytes) (page_no i prev off : ℕ) (acc : List Posting) (r : List Posting × ℕ)
    → ((i ≡ 0) × (prev ≡ 0)) ⊎ (0 < i)
    → delta_rounds n body page_no i prev off acc ≡ ok r
    → Adds n i prev acc r.0
unfolding delta_rounds
delta_rounds-Adds zero body page_no i prev off acc r start h =
    let e : (acc, off) ≡ r = cc in
    let e0 : acc ≡ r.0 = ap (λ t. t.0) e in ([], rw append-nil (sym e0), tt, refl)
delta_rounds-Adds (suc n) body page_no i prev off acc r start h =
    let (delta, h1, e1) = question_ok (read_varint body off page_no) _ r h in
    let (id, h2, e2) = question_ok (next_id page_no i prev delta.0) _ r h1 in
    let (value, h3, e3) = question_ok (read_varint body delta.1 page_no) _ r h2 in
    let (tf, h4, e4) = question_ok (term_freq_of page_no value.0) _ r h3 in
    let (s, lt) =
      next_id-Steps page_no i prev delta.0 id start (read_varint-lt body off page_no delta e1) e2 in
    Adds-one n i prev id tf acc r.0 s lt (term_freq_of_bounds page_no value.0 tf e4)
      (delta_rounds-Adds n body page_no (suc i) id value.1 _ r (inr (omega arith)) h4)

for_rounds-Adds :
    (n : ℕ) (body : Bytes) (page_no dw tw i prev delta_off tf_off : ℕ) (acc : List Posting)
    (r : List Posting × ℕ)
    → All IsByte body
    → ((i ≡ 0) × (prev ≡ 0)) ⊎ (0 < i)
    → for_rounds n body page_no dw tw i prev delta_off tf_off acc ≡ ok r
    → Adds n i prev acc r.0
unfolding for_rounds
for_rounds-Adds zero body page_no dw tw i prev delta_off tf_off acc r bytes start h =
    let e : (acc, tf_off) ≡ r = cc in
    let e0 : acc ≡ r.0 = ap (λ t. t.0) e in ([], rw append-nil (sym e0), tt, refl)
for_rounds-Adds (suc n) body page_no dw tw i prev delta_off tf_off acc r bytes start h =
    let (delta, h1, e1) = question_ok (read_fixed body delta_off dw page_no) _ r h in
    let (id, h2, e2) = question_ok (next_id page_no i prev delta.0) _ r h1 in
    let (value, h3, e3) = question_ok (read_fixed body tf_off tw page_no) _ r h2 in
    let (tf, h4, e4) = question_ok (term_freq_of page_no value.0) _ r h3 in
    let (s, lt) =
      next_id-Steps page_no i prev delta.0 id start
        (read_fixed-lt body delta_off dw page_no delta bytes e1) e2 in
    Adds-one n i prev id tf acc r.0 s lt (term_freq_of_bounds page_no value.0 tf e4) (
      for_rounds-Adds n body page_no dw tw (suc i) id delta.1 value.1 _ r bytes (inr (omega arith))
        h4)

-- Either decoder of a block.
pub decode_block_run-Adds :
    (layout : PostingsLayout) (body : Bytes) (off count page_no : ℕ) (acc : List Posting)
    (r : List Posting × ℕ)
    → All IsByte body
    → decode_block_run layout body off count page_no acc ≡ ok r
    → Adds count 0 0 acc r.0
unfolding decode_block_run decode_for_block decode_delta_run
decode_block_run-Adds frame_of_reference body off count page_no acc r bytes h =
    let (dw, h1, e1) = question_ok (ok_or (get_elem? body off) _) _ r h in
    let (tw, h2, e2) = question_ok (ok_or (get_elem? body (off + 1)) _) _ r h1 in
    let (u, h3, e3) =
      question_ok (guard (leb 1 dw && (leb dw 16 && (leb 1 tw && leb tw 4))) _) _ r h2 in
    let (stream_bytes, h4, e4) = question_ok (ok_or (checked (count * (dw + tw))) _) _ r h3 in
    let (start, h5, e5) = question_ok (ok_or (checked (off + 2)) _) _ r h4 in
    let (need, h6, e6) = question_ok (ok_or (checked (start + stream_bytes)) _) _ r h5 in
    let (v, h7, e7) = question_ok (guard (leb need (length body)) _) _ r h6 in
    for_rounds-Adds count body page_no dw tw 0 0 (off + 2) (off + 2 + count * dw) acc r bytes
      (inl (refl, refl)) h7
decode_block_run-Adds fixed_width body off count page_no acc r bytes h =
    delta_rounds-Adds count body page_no 0 0 off acc r (inl (refl, refl)) h
decode_block_run-Adds delta_varint body off count page_no acc r bytes h =
    delta_rounds-Adds count body page_no 0 0 off acc r (inl (refl, refl)) h
decode_block_run-Adds (delta_varint_skip entry) body off count page_no acc r bytes h =
    delta_rounds-Adds count body page_no 0 0 off acc r (inl (refl, refl)) h

pub decode_delta_run-Adds :
    (body : Bytes) (off count page_no : ℕ) (acc : List Posting) (r : List Posting × ℕ)
    → decode_delta_run body off count page_no acc ≡ ok r
    → Adds count 0 0 acc r.0
unfolding decode_delta_run
decode_delta_run-Adds body off count page_no acc r h =
    delta_rounds-Adds count body page_no 0 0 off acc r (inl (refl, refl)) h
