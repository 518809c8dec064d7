-- ===== src/Fts/Postings/Skip.antt =====
-- crates/embedmind-core/src/index/fts.rs: `decode_skip`, a body with an index of blocks read and
-- checked against it; and `lookup_via_skip`, one document found in it through the index.
use embedmind.Prelude.{
  ℕ, zero, suc, ◌+◌, ◌-◌, ◌*◌, ◌/◌, Bool, true, ◌&&◌, not, Option, none, some, List, [], ◌∷◌,
  length, drop, ltb, leb, ◌==◌, if◌then◌else◌,
}
use embedmind.Error.{Result, ok, err, malformed_page, guard, ok_or, ◌>>=◌, ◌>>◌}
use embedmind.Bytes.{Bytes}
use embedmind.Dict.Fields.{read_u32_at}
use embedmind.Fts.{
  Posting, SkipEntry, v5, v6, PostingsLayout, fixed_width, delta_varint, frame_of_reference,
  delta_varint_skip, skip_block_size, skip_min_doc_freq, entry_len, tail_off,
}
use embedmind.Fts.Fixed.{checked}
use embedmind.Fts.Runs.{reject_hostile_delta_count, max_tf, decode_block_run}
use embedmind.Fts.Postings.{
  Postings, UlidBytes, read_u128_le, first_id, last_id, behind, decode_plain, decode_fixed_width,
  decode_delta_varint,
}

-- The last identifier that the index has for a block, where its entries hold one.
unfoldable pub stored_last : SkipEntry → Bytes → ℕ → ℕ → Result (Option ℕ)
stored_last v5 body idx_off page_no = ok none
stored_last v6 body idx_off page_no = do
  last ← read_u128_le body (idx_off + 16) page_no
  ok (some last)

-- `!stored_last.is_some_and(|s| s != last_id)`
unfoldable pub last_agrees : Option ℕ → ℕ → Bool
last_agrees none last = true
last_agrees (some stored) last = stored == last

-- How many entries block `b` has.
unfoldable pub block_len : ℕ → ℕ → ℕ → ℕ
block_len count block_count b =
    if b + 1 == block_count then count - b * skip_block_size else skip_block_size

-- The loop of `decode_skip`, from block `b` on, with the blocks left.
unfoldable pub block_rounds :
    ℕ
    → SkipEntry
    → PostingsLayout
    → Bytes
    → ℕ
    → ℕ
    → ℕ
    → ℕ
    → ℕ
    → Option ℕ
    → ℕ
    → List Posting
    → Result (List Posting)
unfolding stored_last last_agrees block_len
block_rounds zero entry layout body page_no count block_count blocks_start b prev off entries =
    ok entries
block_rounds (suc rounds) entry layout body page_no count block_count blocks_start b prev off
      entries =
    do
      let idx_off = 8 + b * entry_len entry
      stored_first ← read_u128_le body idx_off page_no
      last ← stored_last entry body idx_off page_no
      stored_offset ← read_u32_at body (idx_off + tail_off entry) page_no
      stored_max_tf ← read_u32_at body (idx_off + tail_off entry + 4) page_no
      guard (blocks_start + stored_offset == off)
          (malformed_page page_no "fts skip byte_offset mismatch")
      r ← decode_block_run layout body off (block_len count block_count b) page_no entries
      let block = drop (length entries) r.0
      guard (stored_first == first_id block) (malformed_page page_no "fts skip first_id mismatch")
      guard (last_agrees last (last_id block)) (malformed_page page_no "fts skip last_id mismatch")
      guard (stored_max_tf == max_tf block)
          (malformed_page page_no "fts skip max_term_freq mismatch")
      guard (behind prev (first_id block)) (malformed_page page_no "unsorted fts postings")
      block_rounds rounds entry layout body page_no count block_count blocks_start (suc b)
          (some (last_id block)) r.1 r.0

-- What `decode_skip` and `lookup_via_skip` ask of the counts, and where the blocks start.
unfoldable pub blocks_start : SkipEntry → Bytes → ℕ → ℕ → ℕ → Result ℕ
blocks_start entry body page_no count block_count = do
  guard
      (not (ltb count skip_min_doc_freq)
        && block_count == (count + (skip_block_size - 1)) / skip_block_size)
      (malformed_page page_no "fts skip block_count mismatch")
  index_len ←
      ok_or (checked (block_count * entry_len entry))
        (malformed_page page_no "fts skip index overflow")
  start ← ok_or (checked (8 + index_len)) (malformed_page page_no "fts skip index overflow")
  guard (leb start (length body)) (malformed_page page_no "fts skip index truncated")
  ok start

-- The blocks, where there is an index of them.
unfoldable pub decode_blocks : SkipEntry → PostingsLayout → Bytes → ℕ → ℕ → ℕ → Result Postings
unfolding blocks_start
decode_blocks entry layout body page_no count block_count = do
  start ← blocks_start entry body page_no count block_count
  reject_hostile_delta_count (drop (start - 4) body) count page_no
  entries ←
      block_rounds block_count entry layout body page_no count block_count start 0 none start []
  ok (record { entries = entries })

-- `Postings::decode_skip`
unfoldable pub decode_skip : SkipEntry → PostingsLayout → Bytes → ℕ → Result Postings
unfolding decode_blocks
decode_skip entry layout body page_no = do
  count ← read_u32_at body 0 page_no
  block_count ← read_u32_at body 4 page_no
  if block_count == 0
      then decode_plain body page_no count 8
      else decode_blocks entry layout body page_no count block_count

-- `Postings::decode`
unfoldable pub decode : UlidBytes → Bytes → ℕ → PostingsLayout → Result Postings
unfolding decode_skip
decode u body page_no fixed_width = decode_fixed_width u body page_no
decode u body page_no delta_varint = decode_delta_varint body page_no
decode u body page_no (delta_varint_skip entry) =
    decode_skip entry (delta_varint_skip entry) body page_no
decode u body page_no frame_of_reference = decode_skip v6 frame_of_reference body page_no

-- `binary_search_by` on a sorted list, and the term frequency where it found one.
unfoldable pub term_freq_in : ℕ → List Posting → Option ℕ
term_freq_in target [] = none
term_freq_in target (p ∷ ps) =
    if p.record_id == target then some p.term_freq else term_freq_in target ps

-- The search of `lookup_via_skip` for the first block that starts behind the target, with fuel for
-- the width of the range.
unfoldable pub first_behind : ℕ → Bytes → ℕ → ℕ → ℕ → ℕ → ℕ → Result ℕ
first_behind zero body page_no entry_len target lo hi = ok lo
first_behind (suc fuel) body page_no entry_len target lo hi =
    let mid = lo + (hi - lo) / 2 in
    let narrowed = (do
      first ← read_u128_le body (8 + mid * entry_len) page_no
      first_behind fuel body page_no entry_len target (if leb first target then mid + 1 else lo)
          (if leb first target then hi else mid)) in
    if ltb lo hi then narrowed else ok lo

-- The block that may hold the target, before the one that starts behind it.
unfoldable pub look_in_block :
    SkipEntry → PostingsLayout → Bytes → ℕ → ℕ → ℕ → ℕ → ℕ → ℕ → Result (Option ℕ)
unfolding block_len
look_in_block entry layout body page_no count block_count start target zero = ok none
look_in_block entry layout body page_no count block_count start target (suc b) = do
  stored_offset ← read_u32_at body (8 + b * entry_len entry + tail_off entry) page_no
  off ←
      ok_or (checked (start + stored_offset))
        (malformed_page page_no "fts skip byte_offset overflow")
  r ← decode_block_run layout body off (block_len count block_count b) page_no []
  ok (term_freq_in target r.0)

unfoldable pub lookup_skip :
    UlidBytes → SkipEntry → PostingsLayout → Bytes → ℕ → ℕ → Result (Option ℕ)
unfolding blocks_start look_in_block
lookup_skip u entry layout body page_no target = do
  count ← read_u32_at body 0 page_no
  block_count ← read_u32_at body 4 page_no
  if block_count == 0
      then (do decoded ← decode u body page_no layout; ok (term_freq_in target decoded.entries))
      else (do
        start ← blocks_start entry body page_no count block_count
        lo ← first_behind block_count body page_no (entry_len entry) target 0 block_count
        look_in_block entry layout body page_no count block_count start target lo)

-- `lookup_via_skip`
unfoldable pub lookup_via_skip : UlidBytes → Bytes → ℕ → ℕ → PostingsLayout → Result (Option ℕ)
unfolding lookup_skip
lookup_via_skip u body page_no target (delta_varint_skip entry) =
    lookup_skip u entry (delta_varint_skip entry) body page_no target
lookup_via_skip u body page_no target frame_of_reference =
    lookup_skip u v6 frame_of_reference body page_no target
lookup_via_skip u body page_no target _ =
    err (malformed_page page_no "fts skip lookup on non-skip layout")
