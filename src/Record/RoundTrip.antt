-- ===== src/Record/RoundTrip.antt =====
-- crates/embedmind-core/src/record.rs, `MemoryRecord::decode`: about the bytes that `encode` writes.
use mathlib.Core.Path.{subst}
use embedmind.Prelude.{
  ℕ, ◌+◌, ◌*◌, ◌≤◌, ◌≡◌, refl, true, false, [], ◌∷◌, ◌++◌, length, length-append, ltb, ◌==◌, arith,
}
use embedmind.Error.{ok}
use embedmind.Bytes.{Bytes, le_bytes}
use embedmind.Bytes.Le.{length-le_bytes}
use embedmind.Bytes.Reads.{Reads, Reads-front, Reads-back, Reads-next, Reads-whole}
use embedmind.Format.HnswNode.{Ulids}
use embedmind.Record.{MemoryRecord}
use embedmind.Record.Reader.{
  bytes, u16, u64, str_bytes, length-str_bytes, bytes-of, uint-of, string-of,
}
use embedmind.Record.Encode.{flags_of, unwrap_or_empty, place_of, encode}
use embedmind.Record.Decode.{decode_record, decode}
use embedmind.Record.Layout.{
  entries_bytes, optional-IsText, IsRecord, front, place, tail, record_bytes, encode-record_bytes,
}
use embedmind.Record.Parts.{
  byte-of, moved, entries-of, Follow-nil, flags_lem, vec_ref-of, place_bounds, non_empty-of,
  Reads-text,
}

module _ (U : Ulids) (r : MemoryRecord U) (v : IsRecord U r) where
  abbrev texts : Bytes × Bytes × Bytes
  texts = (unwrap_or_empty r.project, r.provenance.agent, unwrap_or_empty r.provenance.session_id)

  decode_record-of :
      (buf : Bytes)
      → Reads buf 0 (record_bytes U r)
      → decode_record U buf 0 ≡ ok (r, length (record_bytes U r))
  unfolding decode_record record_bytes u16 u64
  decode_record-of buf whole =
      let id = U.to_bytes r.id in
      let flags = flags_of r.tombstone r.superseded in
      let known = flags_lem r.tombstone r.superseded in
      let last = tail U r ++ entries_bytes r.metadata in
      let three = str_bytes texts.2 ++ last in
      let two = str_bytes texts.1 ++ three in
      let one = str_bytes texts.0 ++ two in
      let placed = place U r ++ one in
      let head = Reads-front buf 0 (front U r) (str_bytes r.content ++ placed) whole in
      let id_read : bytes 16 buf 0 ≡ ok (id, 16) =
        rw (U.length-to_bytes r.id) at
          (bytes-of buf 0 id (Reads-front buf 0 id (flags ∷ []) head)) in
      let flags_read =
        byte-of buf 16 flags [] known.2
          (Reads-next buf 0 16 id (flags ∷ []) (U.length-to_bytes r.id) head) in
      let front_len : length (front U r) ≡ 17 =
        omega (arith, length-append id (flags ∷ []), U.length-to_bytes r.id) in
      let at_content =
        Reads-next buf 0 17 (front U r) (str_bytes r.content ++ placed) front_len whole in
      let content_read =
        string-of "content" buf 17 r.content v.content.0 v.content.1
          (Reads-front buf 17 (str_bytes r.content) placed at_content) in
      let p1 = 17 + 4 + length r.content in
      let at_place = Reads-text buf 17 r.content placed at_content in
      let page = le_bytes 8 (place_of r.vec_ref).0 in
      let slot = le_bytes 2 (place_of r.vec_ref).1 in
      let bounds = place_bounds r.vec_ref v.vec_ref in
      let place_read = Reads-front buf p1 (place U r) one at_place in
      let page_read =
        uint-of buf p1 8 (place_of r.vec_ref).0 bounds.0
          (Reads-front buf p1 page slot place_read) in
      let slot_read =
        uint-of buf (p1 + 8) 2 (place_of r.vec_ref).1 bounds.1
          (Reads-next buf p1 8 page slot (length-le_bytes 8 (place_of r.vec_ref).0) place_read) in
      let p2 = p1 + 8 + 2 in
      let place_len : length (place U r) ≡ 10 = omega (
        arith,
        length-append page slot,
        length-le_bytes 8 (place_of r.vec_ref).0,
        length-le_bytes 2 (place_of r.vec_ref).1,
      ) in
      let at_project : Reads buf p2 one =
        subst (λ (p : ℕ). Reads buf p one) (omega (arith, place_len))
          (Reads-back buf p1 (place U r) one at_place) in
      let project = optional-IsText r.project v.project in
      let project_read =
        string-of "project" buf p2 texts.0 project.0 project.1
          (Reads-front buf p2 (str_bytes texts.0) two at_project) in
      let p3 = p2 + 4 + length texts.0 in
      let at_agent = Reads-text buf p2 texts.0 two at_project in
      let agent_read =
        string-of "provenance.agent" buf p3 texts.1 v.agent.0 v.agent.1
          (Reads-front buf p3 (str_bytes texts.1) three at_agent) in
      let p4 = p3 + 4 + length texts.1 in
      let at_session = Reads-text buf p3 texts.1 three at_agent in
      let session = optional-IsText r.provenance.session_id v.session_id in
      let session_read =
        string-of "provenance.session_id" buf p4 texts.2 session.0 session.1
          (Reads-front buf p4 (str_bytes texts.2) last at_session) in
      let p5 = p4 + 4 + length texts.2 in
      let at_tail = Reads-text buf p4 texts.2 last at_session in
      let created = le_bytes 8 r.provenance.created_at_micros in
      let count = le_bytes 2 (length r.metadata) in
      let tail_read = Reads-front buf p5 (tail U r) (entries_bytes r.metadata) at_tail in
      let created_read =
        uint-of buf p5 8 r.provenance.created_at_micros v.created
          (Reads-front buf p5 created count tail_read) in
      let count_read = uint-of buf (p5 + 8) 2 (length r.metadata) (omega (arith, v.count)) (
        Reads-next buf p5 8 created count (length-le_bytes 8 r.provenance.created_at_micros)
          tail_read) in
      let tail_len : length (tail U r) ≡ 10 = omega (
        arith,
        length-append created count,
        length-le_bytes 8 r.provenance.created_at_micros,
        length-le_bytes 2 (length r.metadata),
      ) in
      let at_entries : Reads buf (p5 + 8 + 2) (entries_bytes r.metadata) =
        subst (λ (p : ℕ). Reads buf p (entries_bytes r.metadata)) (omega (arith, tail_len))
          (Reads-back buf p5 (tail U r) (entries_bytes r.metadata) at_tail) in
      let entries_read =
        entries-of buf (p5 + 8 + 2) [] r.metadata v.entries v.sorted (Follow-nil r.metadata)
          at_entries in
      rw
        (
          id_read,
          flags_read,
          content_read,
          page_read,
          slot_read,
          project_read,
          agent_read,
          session_read,
          created_read,
          count_read,
          entries_read,
          U.from_bytes-to_bytes r.id,
          known.0,
          known.1,
          vec_ref-of r.vec_ref v.vec_ref,
          non_empty-of r.project v.project,
          non_empty-of r.provenance.session_id v.session_id,
        )
        (moved r _ _ (
          omega (
            arith,
            front_len,
            place_len,
            tail_len,
            length-append (front U r) (str_bytes r.content ++ placed),
            length-append (str_bytes r.content) placed,
            length-append (place U r) one,
            length-append (str_bytes texts.0) two,
            length-append (str_bytes texts.1) three,
            length-append (str_bytes texts.2) last,
            length-append (tail U r) (entries_bytes r.metadata),
            length-str_bytes r.content,
            length-str_bytes texts.0,
            length-str_bytes texts.1,
            length-str_bytes texts.2,
          )))

  -- Every record that the format can hold, of at most 32 MiB of bytes, is encoded, and decoding the
  -- bytes returns the record. In such a record the strings are UTF-8 and their lengths fit 32 bits,
  -- the numbers fit their widths, an optional string or embedding is not the one that stands for
  -- none, and there are at most 65535 entries of metadata in the order of their keys.
  pub decode-encode_record :
      length (record_bytes U r) ≤ 32 * 1024 * 1024
      → (out : Bytes) × (encode U r ≡ ok out) × (decode U out ≡ ok r)
  unfolding decode
  decode-encode_record small =
      let fits : ltb (32 * 1024 * 1024) (length (record_bytes U r)) ≡ false =
        ground (arith, small) in
      let read = decode_record-of (record_bytes U r) (Reads-whole (record_bytes U r)) in
      let end : (length (record_bytes U r) == length (record_bytes U r)) ≡ true = ground arith in
      (record_bytes U r, encode-record_bytes U r v small, rw (fits, read, end) refl)
