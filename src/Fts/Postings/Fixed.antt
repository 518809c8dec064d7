-- ===== src/Fts/Postings/Fixed.antt =====
-- crates/embedmind-core/src/index/fts.rs: `decode_fixed_width` at entries of a fixed width.
use embedmind.Prelude.{
  ℕ, zero, suc, ◌+◌, ◌*◌, ◌^◌, ◌<◌, ◌≡◌, inl, inr, refl, true, not, List, [], ◌∷◌, ◌++◌, length,
  length-append, leb, ◌==◌, arith,
}
use embedmind.Error.{ok}
use embedmind.Bytes.{Bytes, le_bytes}
use embedmind.Bytes.Le.{length-le_bytes}
use embedmind.Bytes.Reads.{Reads, Reads-front, Reads-next, Reads-at, Reads-whole, Reads-range}
use embedmind.Fts.{Posting}
use embedmind.Fts.Runs.Sorted.{Steps, Valid, IsSorted}
use embedmind.Fts.Runs.Blocks.{checked_lem}
use embedmind.Fts.Postings.{UlidBytes, fixed_entries, behind, fixed_rounds, decode_fixed_width}
use embedmind.Fts.Postings.Index.{read_u32_at-of}
use embedmind.Fts.Postings.Blocks.{seam}

-- What the `ulid` crate documents of the two conversions.
pub record UlidLaws (u : UlidBytes) : Type 0 where
  pub length-to_bytes : (id : ℕ) → length (u.to_bytes id) ≡ 16
  pub from_bytes-lt : (bs : Bytes) → length bs ≡ 16 → u.from_bytes bs < 2 ^ 128
  pub from_bytes-to_bytes : (id : ℕ) → id < 2 ^ 128 → u.from_bytes (u.to_bytes id) ≡ id

length-fixed_entries :
    (u : UlidBytes) (ps : List Posting) → UlidLaws u → length (fixed_entries u ps) ≡ length ps * 20
unfolding fixed_entries
length-fixed_entries u [] laws = omega arith
length-fixed_entries u (p ∷ ps) laws = omega (
  arith,
  length-append (u.to_bytes p.record_id) (le_bytes 4 p.term_freq ++ fixed_entries u ps),
  length-append (le_bytes 4 p.term_freq) (fixed_entries u ps),
  length-le_bytes 4 p.term_freq,
  laws.length-to_bytes p.record_id,
  length-fixed_entries u ps laws,
)

behind-Steps : (i prev id : ℕ) → Steps i prev id → behind (seam i prev) id ≡ true
unfolding behind
behind-Steps zero prev id s = refl
behind-Steps (suc i) prev id (inl (a, b)) = absurd (omega arith)
behind-Steps (suc i) prev id (inr (a, b)) = ground arith

fixed_rounds-of :
    (u : UlidBytes) (ps : List Posting) (i prev off page_no : ℕ) (body : Bytes)
    → UlidLaws u
    → Valid i prev ps
    → Reads body off (fixed_entries u ps)
    → fixed_rounds u (length ps) body page_no (seam i prev) off ≡ ok ps
unfolding fixed_rounds fixed_entries
fixed_rounds-of u [] i prev off page_no body laws v reads = refl
fixed_rounds-of u (p ∷ ps) i prev off page_no body laws (a, c, d, e, rest) reads =
    let id = u.to_bytes p.record_id in
    let tf = le_bytes 4 p.term_freq in
    let tail = fixed_entries u ps in
    let len = laws.length-to_bytes p.record_id in
    let at_tf = Reads-next body off 16 id (tf ++ tail) len reads in
    let at_tail =
      Reads-at body (off + 16 + 4) (off + 20) tail (omega arith)
        (Reads-next body (off + 16) 4 tf tail (length-le_bytes 4 p.term_freq) at_tf) in
    let nonzero : not (p.term_freq == 0) ≡ true = ground arith in
    rw
      (
        Reads-range body off 16 id len (Reads-front body off id (tf ++ tail) reads),
        laws.from_bytes-to_bytes p.record_id c,
        behind-Steps i prev p.record_id a,
        read_u32_at-of body (off + 16) p.term_freq page_no e
            (Reads-front body (off + 16) tf tail at_tf),
        nonzero,
        fixed_rounds-of u ps (suc i) p.record_id (off + 20) page_no body laws rest at_tail,
      )
      refl

pub decode-encode_fixed :
    (u : UlidBytes) (ps : List Posting) (page_no : ℕ)
    → UlidLaws u
    → IsSorted ps
    → length ps < 2 ^ 32
    → decode_fixed_width u (le_bytes 4 (length ps) ++ fixed_entries u ps) page_no
      ≡ ok (record { entries = ps })
unfolding decode_fixed_width
decode-encode_fixed u ps page_no laws sorted few =
    let count = le_bytes 4 (length ps) in
    let tail = fixed_entries u ps in
    let body = count ++ tail in
    let whole = Reads-whole body in
    let at_tail = Reads-next body 0 4 count tail (length-le_bytes 4 (length ps)) whole in
    let size = length-fixed_entries u ps laws in
    let long : length body ≡ 4 + length ps * 20 =
      omega (arith, length-append count tail, length-le_bytes 4 (length ps)) in
    let full : leb (4 + length ps * 20) (length body) ≡ true = ground arith in
    rw
      (
        read_u32_at-of body 0 (length ps) page_no few (Reads-front body 0 count tail whole),
        checked_lem (length ps * 20) (omega arith),
        checked_lem (4 + length ps * 20) (omega arith),
        full,
        fixed_rounds-of u ps 0 0 4 page_no body laws sorted at_tail,
      )
      refl
