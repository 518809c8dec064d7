-- ===== src/Fts/Postings/Accepted.antt =====
-- crates/embedmind-core/src/index/fts.rs: `Postings::decode` on a body of any bytes.
use mathlib.Core.Path.{subst}
use mathlib.Core.Option
use embedmind.Prelude.{
  ℕ, zero, suc, ◌+◌, ◌-◌, ◌*◌, ◌/◌, ◌^◌, ◌<◌, ◌≤◌, ◌≡◌, ◌⊎◌, inl, inr, refl, sym, ap, ◌∙◌, true,
  ◌&&◌, not, none, some, List, [], ◌∷◌, length, length-take, length-drop, take, drop, All, ltb, leb,
  ◌==◌, Bool-cases, Option-cases, arith,
}
use embedmind.Error.{ok, ok_or, guard, guard-true, question_ok, ok_or-some}
use embedmind.Bytes.{Bytes, IsByte, from_le, get_range, read_u32}
use embedmind.Bytes.Le.{from_le-lt}
use embedmind.Dict.Fields.{read_u32_at}
use embedmind.Fts.{
  Posting, SkipEntry, v6, PostingsLayout, fixed_width, delta_varint, frame_of_reference,
  delta_varint_skip, posting_len,
}
use embedmind.Fts.Fixed.{checked}
use embedmind.Fts.Runs.{reject_hostile_delta_count, decode_delta_run}
use embedmind.Fts.Runs.Sorted.{Steps, Valid, IsSorted}
use embedmind.Fts.Runs.Bounds.{All-get_range}
use embedmind.Fts.Runs.Checked.{decode_delta_run-Adds}
use embedmind.Fts.Postings.{
  Postings, UlidBytes, behind, fixed_rounds, decode_fixed_width, decode_plain, decode_delta_varint,
}
use embedmind.Fts.Postings.Skip.{blocks_start, block_rounds, decode_blocks, decode_skip, decode}
use embedmind.Fts.Postings.Blocks.{seam}
use embedmind.Fts.Postings.Fixed.{UlidLaws}
use embedmind.Fts.Postings.Hostile.{block_rounds-IsSorted}

length-range :
    (buf : Bytes) (off n : ℕ) (bs : Bytes) → get_range buf off n ≡ some bs → length bs ≡ n
unfolding get_range
length-range buf off n bs h = elim (Bool-cases (leb (off + n) (length buf))) [
  | inl t ↦
      let h' : some (take n (drop off buf)) ≡ some bs = rw t at h in
      let e : take n (drop off buf) ≡ bs = cc in
      rw (← e) (
        let fits : off + n ≤ length buf = ground arith in
        omega (arith, length-take n (drop off buf), length-drop off buf))
  | inr f ↦ let h' : none ≡ some bs = rw f at h in cc
]

read_u32-lt : (body : Bytes) (off v : ℕ) → All IsByte body → read_u32 body off ≡ some v → v < 2 ^ 32
unfolding read_u32
read_u32-lt body off v bytes h = elim (Option-cases (get_range body off 4)) [
  | inl missing ↦ let h' : Option.map from_le none ≡ some v = rw missing at h in cc
  | inr (bs, found) ↦
      let h' : some (from_le bs) ≡ some v = rw found at h in
      let e : from_le bs ≡ v = cc in
      let lt = from_le-lt bs (All-get_range body off 4 bs bytes found) in
      let lt4 : from_le bs < 256 ^ 4 = rw (length-range body off 4 bs found) at lt in omega arith
]

read_u32_at-lt :
    (body : Bytes) (off v page_no : ℕ)
    → All IsByte body
    → read_u32_at body off page_no ≡ ok v
    → v < 2 ^ 32
unfolding read_u32_at
read_u32_at-lt body off v page_no bytes h =
    read_u32-lt body off v bytes (ok_or-some (read_u32 body off) _ v h)

behind-Steps :
    (i prev id : ℕ) → ((0 < i) ⊎ (prev ≡ 0)) → behind (seam i prev) id ≡ true → Steps i prev id
unfolding behind
behind-Steps zero prev id (inl h) order = absurd (omega arith)
behind-Steps zero prev id (inr h) order = inl (refl, h)
behind-Steps (suc i) prev id h order = inr (omega arith, ground arith)

nonzero : (n : ℕ) → not (n == 0) ≡ true → 0 < n
nonzero n h = ground arith

fixed_rounds-Valid :
    (u : UlidBytes) (rounds : ℕ) (body : Bytes) (page_no i prev off : ℕ) (out : List Posting)
    → UlidLaws u
    → All IsByte body
    → ((0 < i) ⊎ (prev ≡ 0))
    → fixed_rounds u rounds body page_no (seam i prev) off ≡ ok out
    → Valid i prev out
unfolding fixed_rounds
fixed_rounds-Valid u zero body page_no i prev off out laws bytes start h =
    let same : [] ≡ out = cc in subst (λ (l : List Posting). Valid i prev l) same tt
fixed_rounds-Valid u (suc rounds) body page_no i prev off out laws bytes start h =
    let (id_bytes, h1, e1) = question_ok (ok_or (get_range body off 16) _) _ out h in
    let id = u.from_bytes id_bytes in
    let (u2, h2, e2) = question_ok (guard (behind (seam i prev) id) _) _ out h1 in
    let (tf, h3, e3) = question_ok (read_u32_at body (off + 16) page_no) _ out h2 in
    let (u4, h4, e4) = question_ok (guard (not (tf == 0)) _) _ out h3 in
    let (rest, h5, e5) =
      question_ok (fixed_rounds u rounds body page_no (some id) (off + 20)) _ out h4 in
    let same : record { record_id = id; term_freq = tf } ∷ rest ≡ out = cc in
    let found = ok_or-some (get_range body off 16) _ id_bytes e1 in
    let step = behind-Steps i prev id start (guard-true (behind (seam i prev) id) _ u2 e2) in
    let few = read_u32_at-lt body (off + 16) tf page_no bytes e3 in
    let ih =
      fixed_rounds-Valid u rounds body page_no (suc i) id (off + 20) rest laws bytes
        (inl (omega arith)) e5 in
    subst (λ (l : List Posting). Valid i prev l) same
      (
        step,
        laws.from_bytes-lt id_bytes (length-range body off 16 id_bytes found),
        nonzero tf (guard-true (not (tf == 0)) _ u4 e4),
        few,
        ih,
      )

decode_fixed_width-IsSorted :
    (u : UlidBytes) (body : Bytes) (page_no : ℕ) (p : Postings)
    → UlidLaws u
    → All IsByte body
    → decode_fixed_width u body page_no ≡ ok p
    → IsSorted p.entries
unfolding decode_fixed_width
decode_fixed_width-IsSorted u body page_no p laws bytes h =
    let (count, h1, e1) = question_ok (read_u32_at body 0 page_no) _ p h in
    let (size, h2, e2) = question_ok (ok_or (checked (count * posting_len)) _) _ p h1 in
    let (need, h3, e3) = question_ok (ok_or (checked (4 + size)) _) _ p h2 in
    let (v, h4, e4) = question_ok (guard (leb need (length body)) _) _ p h3 in
    let (entries, h5, e5) = question_ok (fixed_rounds u count body page_no none 4) _ p h4 in
    let made : record { entries = entries } ≡ p = cc in
    let same : entries ≡ p.entries = ap (λ (q : Postings). q.entries) made in
    subst IsSorted same
      (fixed_rounds-Valid u count body page_no 0 0 4 entries laws bytes (inr refl) e5)

decode_plain-IsSorted :
    (body : Bytes) (page_no count off : ℕ) (p : Postings)
    → decode_plain body page_no count off ≡ ok p
    → IsSorted p.entries
unfolding decode_plain
decode_plain-IsSorted body page_no count off p h =
    let (v, h1, e1) = question_ok (reject_hostile_delta_count body count page_no) _ p h in
    let (r, h2, e2) = question_ok (decode_delta_run body off count page_no []) _ p h1 in
    let made : record { entries = r.0 } ≡ p = cc in
    let same : r.0 ≡ p.entries = ap (λ (q : Postings). q.entries) made in
    let (ps, added, valid, len) = decode_delta_run-Adds body off count page_no [] r e2 in
    subst IsSorted (sym added ∙ same) valid

decode_delta_varint-IsSorted :
    (body : Bytes) (page_no : ℕ) (p : Postings)
    → decode_delta_varint body page_no ≡ ok p
    → IsSorted p.entries
unfolding decode_delta_varint
decode_delta_varint-IsSorted body page_no p h =
    let (count, h1, e1) = question_ok (read_u32_at body 0 page_no) _ p h in
    decode_plain-IsSorted body page_no count 4 p h1

blocks_start-count :
    (entry : SkipEntry) (body : Bytes) (page_no count block_count start : ℕ)
    → blocks_start entry body page_no count block_count ≡ ok start
    → block_count ≡ (count + 127) / 128
unfolding blocks_start
blocks_start-count entry body page_no count block_count start h =
    let test = not (ltb count 512) && block_count == (count + (128 - 1)) / 128 in
    let (v, h1, e1) = question_ok (guard test _) _ start h in
    let passed = guard-true test _ v e1 in ground arith

decode_blocks-IsSorted :
    (entry : SkipEntry) (layout : PostingsLayout) (body : Bytes) (page_no count block_count : ℕ)
    (p : Postings)
    → All IsByte body
    → decode_blocks entry layout body page_no count block_count ≡ ok p
    → IsSorted p.entries
unfolding decode_blocks
decode_blocks-IsSorted entry layout body page_no count block_count p bytes h =
    let (start, h1, e1) = question_ok (blocks_start entry body page_no count block_count) _ p h in
    let (v, h2, e2) =
      question_ok (reject_hostile_delta_count (drop (start - 4) body) count page_no) _ p h1 in
    let (entries, h3, e3) =
      question_ok
        (block_rounds block_count entry layout body page_no count block_count start 0 none start [])
        _ p h2 in
    let made : record { entries = entries } ≡ p = cc in
    let same : entries ≡ p.entries = ap (λ (q : Postings). q.entries) made in
    subst IsSorted same (
      block_rounds-IsSorted block_count entry layout body page_no count block_count start 0 none
        start [] entries bytes (blocks_start-count entry body page_no count block_count start e1)
        (omega arith) (inl (refl, refl)) tt e3)

decode_skip-IsSorted :
    (entry : SkipEntry) (layout : PostingsLayout) (body : Bytes) (page_no : ℕ) (p : Postings)
    → All IsByte body
    → decode_skip entry layout body page_no ≡ ok p
    → IsSorted p.entries
unfolding decode_skip
decode_skip-IsSorted entry layout body page_no p bytes h =
    let (count, h1, e1) = question_ok (read_u32_at body 0 page_no) _ p h in
    let (block_count, h2, e2) = question_ok (read_u32_at body 4 page_no) _ p h1 in
    elim (Bool-cases (block_count == 0)) [
      | inl plain ↦ decode_plain-IsSorted body page_no count 8 p (rw plain at h2)
      | inr blocks ↦
          decode_blocks-IsSorted entry layout body page_no count block_count p bytes
            (rw blocks at h2)
    ]

-- Whatever bytes a body holds, the list that it decodes to ascends strictly by identifier, and its
-- term frequencies are of 32 bits and not 0.
pub decode-IsSorted :
    (u : UlidBytes) (body : Bytes) (page_no : ℕ) (layout : PostingsLayout) (p : Postings)
    → UlidLaws u
    → All IsByte body
    → decode u body page_no layout ≡ ok p
    → IsSorted p.entries
unfolding decode
decode-IsSorted u body page_no fixed_width p laws bytes h =
    decode_fixed_width-IsSorted u body page_no p laws bytes h
decode-IsSorted u body page_no delta_varint p laws bytes h =
    decode_delta_varint-IsSorted body page_no p h
decode-IsSorted u body page_no (delta_varint_skip entry) p laws bytes h =
    decode_skip-IsSorted entry (delta_varint_skip entry) body page_no p bytes h
decode-IsSorted u body page_no frame_of_reference p laws bytes h =
    decode_skip-IsSorted v6 frame_of_reference body page_no p bytes h
