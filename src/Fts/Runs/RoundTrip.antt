-- ===== src/Fts/Runs/RoundTrip.antt =====
-- crates/embedmind-core/src/index/fts.rs: `decode_delta_run` at what `encode_delta_run` wrote.
use embedmind.Prelude.{
  ℕ, suc, ◌+◌, ◌^◌, ◌<◌, ◌≡◌, refl, ◌∙◌, List, [], ◌∷◌, ◌++◌, append-nil, append_assoc, length,
  length-append, arith,
}
use embedmind.Error.{ok}
use embedmind.Bytes.{Bytes}
use embedmind.Bytes.Reads.{Reads, Reads-front, Reads-back}
use embedmind.Fts.{Posting}
use embedmind.Fts.Varint.{put_varint}
use embedmind.Fts.Varint.RoundTrip.{read_varint-put_varint}
use embedmind.Fts.Runs.{wrapping_sub, delta_run, encode_delta_run, delta_rounds, decode_delta_run}
use embedmind.Fts.Runs.Sorted.{Valid, IsSorted, next_id-wrapping_sub, term_freq_of_lem}

pub wrapping_sub_lt : (id prev : ℕ) → wrapping_sub id prev < 2 ^ 128
unfolding wrapping_sub
wrapping_sub_lt id prev = omega arith

delta_rounds_lem :
    (ps : List Posting) (i prev off page_no : ℕ) (body : Bytes) (acc : List Posting)
    → Valid i prev ps
    → Reads body off (delta_run prev ps)
    → delta_rounds (length ps) body page_no i prev off acc
      ≡ ok (acc ++ ps, off + length (delta_run prev ps))
unfolding delta_rounds delta_run
delta_rounds_lem [] i prev off page_no body acc v reads =
    let e : off + 0 ≡ off = omega arith in rw (append-nil, e) refl
delta_rounds_lem (p ∷ ps) i prev off page_no body acc (a, c, d, e, rest) reads =
    let delta = put_varint (wrapping_sub p.record_id prev) in
    let tf = put_varint p.term_freq in
    let tail = delta_run p.record_id ps in
    let at_tf = Reads-back body off delta (tf ++ tail) reads in
    let at_tail = Reads-back body (off + length delta) tf tail at_tf in
    let off_eq : off + length delta + length tf + length tail
        ≡ off + length (delta ++ (tf ++ tail)) =
      omega (arith, length-append delta (tf ++ tail), length-append tf tail) in
    rw
      (
        read_varint-put_varint (wrapping_sub p.record_id prev) off page_no body
            (wrapping_sub_lt p.record_id prev) (Reads-front body off delta (tf ++ tail) reads),
        next_id-wrapping_sub page_no i prev p.record_id a c,
        read_varint-put_varint p.term_freq (off + length delta) page_no body (omega arith)
            (Reads-front body (off + length delta) tf tail at_tf),
        term_freq_of_lem page_no p.term_freq d e,
      )
      (delta_rounds_lem ps (suc i) p.record_id (off + length delta + length tf) page_no body
          (acc ++ p ∷ []) rest at_tail
        ∙ rw (off_eq, append_assoc acc (p ∷ []) ps) refl)

-- A run in variable-length differences is read back behind the entries that were there.
pub decode_delta_run-encode :
    (ps acc : List Posting) (off page_no : ℕ) (body : Bytes)
    → IsSorted ps
    → Reads body off (encode_delta_run ps)
    → decode_delta_run body off (length ps) page_no acc
      ≡ ok (acc ++ ps, off + length (encode_delta_run ps))
unfolding decode_delta_run encode_delta_run
decode_delta_run-encode ps acc off page_no body sorted reads =
    delta_rounds_lem ps 0 0 off page_no body acc sorted reads
