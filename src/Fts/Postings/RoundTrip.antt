-- ===== src/Fts/Postings/RoundTrip.antt =====
-- crates/embedmind-core/src/index/fts.rs: `Postings::decode` at what `Postings::encode` wrote, in
-- every layout.
use embedmind.Prelude.{
  ℕ, ◌^◌, ◌<◌, ◌≤◌, ◌≡◌, inl, inr, false, List, ◌++◌, length, ltb, ◌==◌, Bool-cases, arith,
}
use embedmind.Error.{ok}
use embedmind.Bytes.{le_bytes}
use embedmind.Bytes.Le.{length-le_bytes}
use embedmind.Bytes.Reads.{Reads-front, Reads-next, Reads-whole}
use embedmind.Fts.{
  Posting, SkipEntry, v6, PostingsLayout, fixed_width, delta_varint, frame_of_reference,
  delta_varint_skip, skip_min_doc_freq,
}
use embedmind.Fts.Runs.{encode_delta_run}
use embedmind.Fts.Runs.Sorted.{IsSorted}
use embedmind.Fts.Postings.{
  Postings, UlidBytes, blocks_of, skip_index, blocks_body, encode_skip, encode_entries, encode,
  decode_delta_varint,
}
use embedmind.Fts.Postings.Skip.{decode_skip, decode}
use embedmind.Fts.Postings.Index.{read_u32_at-of, length-blocks_of}
use embedmind.Fts.Postings.Blocks.{framed}
use embedmind.Fts.Postings.Start.{decode_plain-of, decode_blocks-of}
use embedmind.Fts.Postings.Fixed.{UlidLaws, decode-encode_fixed}

decode_skip-small :
    (entry : SkipEntry) (layout : PostingsLayout) (ps : List Posting) (page_no : ℕ)
    → IsSorted ps
    → length ps < 512
    → decode_skip entry layout
        (le_bytes 4 (length ps) ++ (le_bytes 4 0 ++ encode_delta_run ps))
        page_no
      ≡ ok (record { entries = ps })
unfolding decode_skip
decode_skip-small entry layout ps page_no sorted few =
    let count = le_bytes 4 (length ps) in
    let none_bytes = le_bytes 4 0 in
    let run = encode_delta_run ps in
    let body = count ++ (none_bytes ++ run) in
    let whole = Reads-whole body in
    let at_blocks =
      Reads-next body 0 4 count (none_bytes ++ run) (length-le_bytes 4 (length ps)) whole in
    let at_run = Reads-next body 4 4 none_bytes run (length-le_bytes 4 0) at_blocks in
    rw
      (
        read_u32_at-of body 0 (length ps) page_no (omega arith)
            (Reads-front body 0 count (none_bytes ++ run) whole),
        read_u32_at-of body 4 0 page_no (omega arith) (Reads-front body 4 none_bytes run at_blocks),
      )
      (decode_plain-of ps body page_no 8 sorted (omega arith) (omega arith) at_run)

decode_skip-blocks :
    (entry : SkipEntry) (layout : PostingsLayout) (ps : List Posting) (page_no : ℕ)
    → IsSorted ps
    → 512 ≤ length ps
    → length ps < 2 ^ 32
    → let blocks = blocks_of (length ps) ps in
      let body =
        le_bytes 4 (length ps)
        ++ (le_bytes 4 (length blocks)
            ++ (skip_index entry (framed layout) 0 blocks ++ blocks_body (framed layout) blocks)) in
      length body < 2 ^ 32 → decode_skip entry layout body page_no ≡ ok (record { entries = ps })
unfolding decode_skip
decode_skip-blocks entry layout ps page_no sorted many few room =
    let blocks = blocks_of (length ps) ps in
    let tail = skip_index entry (framed layout) 0 blocks ++ blocks_body (framed layout) blocks in
    let count = le_bytes 4 (length ps) in
    let block_count = le_bytes 4 (length blocks) in
    let body = count ++ (block_count ++ tail) in
    let whole = Reads-whole body in
    let len = length-blocks_of (length ps) ps (omega arith) in
    let at_blocks =
      Reads-next body 0 4 count (block_count ++ tail) (length-le_bytes 4 (length ps)) whole in
    let at_tail =
      Reads-next body 4 4 block_count tail (length-le_bytes 4 (length blocks)) at_blocks in
    let some_blocks : (length blocks == 0) ≡ false = ground arith in
    rw
      (
        read_u32_at-of body 0 (length ps) page_no few
            (Reads-front body 0 count (block_count ++ tail) whole),
        read_u32_at-of body 4 (length blocks) page_no (omega arith)
            (Reads-front body 4 block_count tail at_blocks),
        some_blocks,
      )
      (decode_blocks-of entry layout ps body page_no sorted many few room at_tail)

decode_skip-encode_skip :
    (entry : SkipEntry) (layout : PostingsLayout) (ps : List Posting) (page_no : ℕ)
    → IsSorted ps
    → length ps < 2 ^ 32
    → length (le_bytes 4 (length ps) ++ encode_skip entry (framed layout) ps) < 2 ^ 32
    → decode_skip entry layout
        (le_bytes 4 (length ps) ++ encode_skip entry (framed layout) ps)
        page_no
      ≡ ok (record { entries = ps })
unfolding encode_skip
decode_skip-encode_skip entry layout ps page_no sorted few room =
    elim (Bool-cases (ltb (length ps) skip_min_doc_freq)) [
      | inl small ↦ rw small (decode_skip-small entry layout ps page_no sorted (ground arith))
      | inr large ↦
          rw large (
            decode_skip-blocks entry layout ps page_no sorted (ground arith) few (rw large at room))
    ]

decode-encode_delta :
    (ps : List Posting) (page_no : ℕ)
    → IsSorted ps
    → length ps < 2 ^ 32
    → decode_delta_varint (le_bytes 4 (length ps) ++ encode_delta_run ps) page_no
      ≡ ok (record { entries = ps })
unfolding decode_delta_varint
decode-encode_delta ps page_no sorted few =
    let count = le_bytes 4 (length ps) in
    let tail = encode_delta_run ps in
    let body = count ++ tail in
    let whole = Reads-whole body in
    let at_tail = Reads-next body 0 4 count tail (length-le_bytes 4 (length ps)) whole in
    rw (read_u32_at-of body 0 (length ps) page_no few (Reads-front body 0 count tail whole))
      (decode_plain-of ps body page_no 4 sorted few (omega arith) at_tail)

-- A list in ascending order of identifiers, with no term frequency of 0, that fits in a body below
-- 4 GiB comes back from its body in each of the layouts.
pub decode-encode_layouts :
    (u : UlidBytes) (p : Postings) (page_no : ℕ) (layout : PostingsLayout)
    → UlidLaws u
    → IsSorted p.entries
    → length p.entries < 2 ^ 32
    → length (encode u p layout) < 2 ^ 32
    → decode u (encode u p layout) page_no layout ≡ ok p
unfolding encode encode_entries decode
decode-encode_layouts u p page_no fixed_width laws sorted few room =
    decode-encode_fixed u p.entries page_no laws sorted few
decode-encode_layouts u p page_no delta_varint laws sorted few room =
    decode-encode_delta p.entries page_no sorted few
decode-encode_layouts u p page_no (delta_varint_skip entry) laws sorted few room =
    decode_skip-encode_skip entry (delta_varint_skip entry) p.entries page_no sorted few room
decode-encode_layouts u p page_no frame_of_reference laws sorted few room =
    decode_skip-encode_skip v6 frame_of_reference p.entries page_no sorted few room
