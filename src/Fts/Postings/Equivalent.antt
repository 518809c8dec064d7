-- ===== src/Fts/Postings/Equivalent.antt =====
-- crates/embedmind-core/src/index/fts.rs: `lookup_via_skip` on a whole body.
use embedmind.Prelude.{
  ℕ, ◌+◌, ◌*◌, ◌^◌, ◌<◌, ◌≤◌, ◌≡◌, ◌⊎◌, inl, inr, refl, false, List, ◌++◌, length, length-append,
  drop, ltb, ◌==◌, Bool-cases, arith,
}
use embedmind.Error.{ok}
use embedmind.Bytes.{le_bytes}
use embedmind.Bytes.Le.{length-le_bytes}
use embedmind.Bytes.Reads.{Reads-front, Reads-next, Reads-whole, Reads-fits}
use embedmind.Fts.{
  Posting, SkipEntry, v5, v6, PostingsLayout, frame_of_reference, delta_varint_skip,
  skip_min_doc_freq, entry_len, for_format_version,
}
use embedmind.Fts.Runs.{encode_delta_run}
use embedmind.Fts.Runs.Sorted.{IsSorted}
use embedmind.Fts.Postings.{
  Postings, UlidBytes, blocks_of, first_id, skip_index, blocks_body, encode_skip, encode_entries,
  encode,
}
use embedmind.Fts.Postings.Skip.{decode, term_freq_in, lookup_skip, lookup_via_skip}
use embedmind.Fts.Postings.Index.{read_u32_at-of, length-blocks_of}
use embedmind.Fts.Postings.Blocks.{framed}
use embedmind.Fts.Postings.Sizes.{length-skip_index}
use embedmind.Fts.Postings.Fixed.{UlidLaws}
use embedmind.Fts.Postings.Start.{blocks_start-of}
use embedmind.Fts.Postings.RoundTrip.{decode-encode_layouts}
use embedmind.Fts.Postings.Search.{first_behind-Parts}
use embedmind.Fts.Postings.Agrees.{first_of_block, blocks_ascend, look_in_block-lem}

lookup_skip-small :
    (u : UlidBytes) (entry : SkipEntry) (layout : PostingsLayout) (ps : List Posting)
    (page_no target : ℕ)
    → length ps < 512
    → let body = le_bytes 4 (length ps) ++ (le_bytes 4 0 ++ encode_delta_run ps) in
      decode u body page_no layout ≡ ok (record { entries = ps })
      → lookup_skip u entry layout body page_no target ≡ ok (term_freq_in target ps)
unfolding lookup_skip
lookup_skip-small u entry layout ps page_no target few decoded =
    let count = le_bytes 4 (length ps) in
    let none_bytes = le_bytes 4 0 in
    let run = encode_delta_run ps in
    let body = count ++ (none_bytes ++ run) in
    let whole = Reads-whole body in
    let at_blocks =
      Reads-next body 0 4 count (none_bytes ++ run) (length-le_bytes 4 (length ps)) whole in
    rw
      (
        read_u32_at-of body 0 (length ps) page_no (omega arith)
            (Reads-front body 0 count (none_bytes ++ run) whole),
        read_u32_at-of body 4 0 page_no (omega arith) (Reads-front body 4 none_bytes run at_blocks),
        decoded,
      )
      refl

lookup_skip-blocks :
    (u : UlidBytes) (entry : SkipEntry) (layout : PostingsLayout) (ps : List Posting)
    (page_no target : ℕ)
    → IsSorted ps
    → 512 ≤ length ps
    → length ps < 2 ^ 32
    → let blocks = blocks_of (length ps) ps in
      let body =
        le_bytes 4 (length ps)
        ++ (le_bytes 4 (length blocks)
            ++ (skip_index entry (framed layout) 0 blocks ++ blocks_body (framed layout) blocks)) in
      length body < 2 ^ 32
      → lookup_skip u entry layout body page_no target ≡ ok (term_freq_in target ps)
unfolding lookup_skip
lookup_skip-blocks u entry layout ps page_no target sorted many few room =
    let blocks = blocks_of (length ps) ps in
    let index = skip_index entry (framed layout) 0 blocks in
    let bodies = blocks_body (framed layout) blocks in
    let size = length blocks * entry_len entry in
    let tail = index ++ bodies in
    let count = le_bytes 4 (length ps) in
    let block_count = le_bytes 4 (length blocks) in
    let body = count ++ (block_count ++ tail) in
    let whole = Reads-whole body in
    let len = length-blocks_of (length ps) ps (omega arith) in
    let at_blocks =
      Reads-next body 0 4 count (block_count ++ tail) (length-le_bytes 4 (length ps)) whole in
    let at_tail =
      Reads-next body 4 4 block_count tail (length-le_bytes 4 (length blocks)) at_blocks in
    let some_blocks : (length blocks == 0) ≡ false = ground arith in
    let index_len = length-skip_index entry (framed layout) 0 blocks in
    let fits : 8 + size + length bodies ≤ length body =
      omega (arith, Reads-fits body 8 tail at_tail, length-append index bodies, index_len) in
    let start = 8 + size in
    let ri = Reads-front body 8 index bodies at_tail in
    let rb = Reads-next body 8 size index bodies index_len at_tail in
    let (r, found, parts) =
      first_behind-Parts body page_no (entry_len entry) target (length blocks)
        (λ b. first_id (drop (b * 128) ps))
        (first_of_block entry layout ps body page_no target sorted room (omega arith) start
          (omega arith) ri rb)
        (blocks_ascend entry layout ps body page_no target sorted room (omega arith) start
          (omega arith) ri rb)
        (length blocks) 0 (length blocks) (omega arith) (omega arith) (omega arith)
        (λ b h. absurd (omega arith)) (λ b h1 h2. absurd (omega arith)) in
    rw
      (
        read_u32_at-of body 0 (length ps) page_no few
            (Reads-front body 0 count (block_count ++ tail) whole),
        read_u32_at-of body 4 (length blocks) page_no (omega arith)
            (Reads-front body 4 block_count tail at_blocks),
        some_blocks,
        blocks_start-of entry body page_no (length ps) (length blocks) many few len (omega arith)
            (omega arith),
        found,
      )
      (look_in_block-lem entry layout ps body page_no target sorted room (omega arith) start
        (omega arith) ri rb r parts)

lookup_skip-encode :
    (u : UlidBytes) (entry : SkipEntry) (layout : PostingsLayout) (ps : List Posting)
    (page_no target : ℕ)
    → IsSorted ps
    → length ps < 2 ^ 32
    → let body = le_bytes 4 (length ps) ++ encode_skip entry (framed layout) ps in
      length body < 2 ^ 32
      → decode u body page_no layout ≡ ok (record { entries = ps })
      → lookup_skip u entry layout body page_no target ≡ ok (term_freq_in target ps)
unfolding encode_skip
lookup_skip-encode u entry layout ps page_no target sorted few room decoded =
    elim (Bool-cases (ltb (length ps) skip_min_doc_freq)) [
      | inl small ↦
          rw small (
            lookup_skip-small u entry layout ps page_no target (ground arith) (rw small at decoded))
      | inr large ↦ rw large (
          lookup_skip-blocks u entry layout ps page_no target sorted (ground arith) few
            (rw large at room))
    ]

layout_cases :
    (version : ℕ)
    → 5 ≤ version
    → (for_format_version version ≡ frame_of_reference)
      ⊎ ((for_format_version version ≡ delta_varint_skip v6)
          ⊎ (for_format_version version ≡ delta_varint_skip v5))
unfolding for_format_version
layout_cases version h = ground arith

-- In a file of format version 5 or later, where a list that ascends fits in a body below 4 GiB, the
-- look-up through the index of its body gives what a search of the whole list gives.
pub lookup_via_skip-encode :
    (u : UlidBytes) (p : Postings) (page_no target version : ℕ)
    → UlidLaws u
    → 5 ≤ version
    → IsSorted p.entries
    → length p.entries < 2 ^ 32
    → length (encode u p (for_format_version version)) < 2 ^ 32
    → lookup_via_skip u
        (encode u p (for_format_version version))
        page_no
        target
        (for_format_version version)
      ≡ ok (term_freq_in target p.entries)
unfolding encode encode_entries lookup_via_skip
lookup_via_skip-encode u p page_no target version laws newer sorted few room =
    elim (layout_cases version newer) [
      | inl e ↦
          let room' = rw e at room in
          rw e (
            lookup_skip-encode u v6 frame_of_reference p.entries page_no target sorted few room'
              (decode-encode_layouts u p page_no frame_of_reference laws sorted few room'))
      | inr (inl e) ↦
          let room' = rw e at room in
          rw e (
            lookup_skip-encode u v6 (delta_varint_skip v6) p.entries page_no target sorted few room'
              (decode-encode_layouts u p page_no (delta_varint_skip v6) laws sorted few room'))
      | inr (inr e) ↦
          let room' = rw e at room in
          rw e (
            lookup_skip-encode u v5 (delta_varint_skip v5) p.entries page_no target sorted few room'
              (decode-encode_layouts u p page_no (delta_varint_skip v5) laws sorted few room'))
    ]
