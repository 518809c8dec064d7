-- ===== src/Fts/Postings.antt =====
-- crates/embedmind-core/src/index/fts.rs: `Postings`, a term's list of documents, and its bodies in
-- each layout, with and without an index of blocks to skip.
pub mod Skip
pub mod Index
pub mod Blocks
pub mod Sizes
pub mod Start
pub mod Fixed
pub mod RoundTrip
pub mod Nth
pub mod Search
pub mod Lookup
pub mod Agrees
pub mod Equivalent
pub mod Upsert
pub mod Hostile
pub mod Accepted
use embedmind.Prelude.{
  ℕ, zero, suc, ◌+◌, ◌-◌, ◌*◌, ◌/◌, ◌^◌, Bool, true, false, ◌&&◌, ◌||◌, not, Option, none, some,
  List, [], ◌∷◌, ◌++◌, length, take, drop, ltb, leb, ◌==◌, if◌then◌else◌,
}
use embedmind.Error.{Result, ok, err, malformed_page, guard, ok_or, ◌>>=◌, ◌>>◌}
use embedmind.Bytes.{Bytes, le_bytes, from_le, get_range}
use embedmind.Dict.Fields.{read_u32_at}
use embedmind.Fts.{
  Posting, SkipEntry, v5, v6, PostingsLayout, fixed_width, delta_varint, frame_of_reference,
  delta_varint_skip, posting_len, skip_block_size, skip_min_doc_freq, entry_len, tail_off,
}
use embedmind.Fts.Fixed.{checked}
use embedmind.Fts.Runs.{
  encode_delta_run, reject_hostile_delta_count, decode_delta_run, max_tf, encode_for_block,
  decode_block_run,
}

pub record Postings : Type 0 where
  pub entries : List Posting

-- The `ulid` crate: the 16 bytes of an identifier, both ways.
pub record UlidBytes : Type 0 where
  pub to_bytes : ℕ → Bytes
  pub from_bytes : Bytes → ℕ

-- `Postings::upsert`, on a sorted list, where the search finds the entry or its place.
unfoldable pub upsert_entry : ℕ → ℕ → List Posting → List Posting
upsert_entry id tf [] = record { record_id = id; term_freq = tf } ∷ []
upsert_entry id tf (p ∷ ps) =
    let rest = upsert_entry id tf ps in
    if ltb p.record_id id
    then p ∷ rest
    else if p.record_id == id
    then record p { term_freq = tf } ∷ ps
    else record { record_id = id; term_freq = tf } ∷ p ∷ ps

unfoldable pub upsert : ℕ → ℕ → Postings → Postings
unfolding upsert_entry
upsert id tf p = record { entries = upsert_entry id tf p.entries }

-- `read_u128_le`
unfoldable pub read_u128_le : Bytes → ℕ → ℕ → Result ℕ
read_u128_le body off page_no = do
  bytes ← ok_or (get_range body off 16) (malformed_page page_no "fts u128 truncated")
  ok (from_le bytes)

-- `chunks(SKIP_BLOCK_SIZE)`; a list of `turns` entries has at most as many chunks.
unfoldable pub blocks_of : ℕ → List Posting → List (List Posting)
blocks_of zero ps = []
blocks_of (suc turns) [] = []
blocks_of (suc turns) (p ∷ ps) =
    take skip_block_size (p ∷ ps) ∷ blocks_of turns (drop skip_block_size (p ∷ ps))

-- `block[0].record_id` and `block[block.len() - 1].record_id`; a block is not empty.
abbrev pub first_id : List Posting → ℕ
first_id [] = 0
first_id (p ∷ ps) = p.record_id

unfoldable pub last_id : List Posting → ℕ
last_id [] = 0
last_id (p ∷ []) = p.record_id
last_id (p ∷ q ∷ ps) = last_id (q ∷ ps)

-- The entry of the index for a block that starts at `byte_offset`.
unfoldable pub skip_bytes : SkipEntry → List Posting → ℕ → Bytes
skip_bytes v5 block byte_offset =
    le_bytes 16 (first_id block) ++ (le_bytes 4 byte_offset ++ le_bytes 4 (max_tf block))
skip_bytes v6 block byte_offset =
    le_bytes 16 (first_id block)
    ++ (le_bytes 16 (last_id block) ++ (le_bytes 4 byte_offset ++ le_bytes 4 (max_tf block)))

-- The body of a block.
unfoldable pub block_bytes : Bool → List Posting → Bytes
block_bytes true block = encode_for_block block
block_bytes false block = encode_delta_run block

-- The loop of `encode_skip` over the blocks: the index and the blocks, these `start` bytes in.
unfoldable pub skip_index : SkipEntry → Bool → ℕ → List (List Posting) → Bytes
skip_index entry frame start [] = []
skip_index entry frame start (block ∷ blocks) =
    skip_bytes entry block start
    ++ skip_index entry frame (start + length (block_bytes frame block)) blocks

unfoldable pub blocks_body : Bool → List (List Posting) → Bytes
blocks_body frame [] = []
blocks_body frame (block ∷ blocks) = block_bytes frame block ++ blocks_body frame blocks

-- `Postings::encode_skip`: what it appends.
unfoldable pub encode_skip : SkipEntry → Bool → List Posting → Bytes
encode_skip entry frame entries =
    if ltb (length entries) skip_min_doc_freq
    then le_bytes 4 0 ++ encode_delta_run entries
    else let blocks = blocks_of (length entries) entries in
      le_bytes 4 (length blocks) ++ (skip_index entry frame 0 blocks ++ blocks_body frame blocks)

unfoldable pub fixed_entries : UlidBytes → List Posting → Bytes
fixed_entries u [] = []
fixed_entries u (p ∷ ps) = u.to_bytes p.record_id ++ (le_bytes 4 p.term_freq ++ fixed_entries u ps)

unfoldable pub encode_entries : UlidBytes → PostingsLayout → List Posting → Bytes
unfolding encode_skip fixed_entries
encode_entries u fixed_width entries = fixed_entries u entries
encode_entries u delta_varint entries = encode_delta_run entries
encode_entries u (delta_varint_skip entry) entries = encode_skip entry false entries
encode_entries u frame_of_reference entries = encode_skip v6 true entries

-- `Postings::encode`
unfoldable pub encode : UlidBytes → Postings → PostingsLayout → Bytes
unfolding encode_entries
encode u p layout = le_bytes 4 (length p.entries) ++ encode_entries u layout p.entries

-- `prev.is_some_and(|p| p >= record_id)`
unfoldable pub behind : Option ℕ → ℕ → Bool
behind none id = true
behind (some prev) id = ltb prev id

-- The loop of `decode_fixed_width`.
unfoldable pub fixed_rounds : UlidBytes → ℕ → Bytes → ℕ → Option ℕ → ℕ → Result (List Posting)
unfolding behind
fixed_rounds u zero body page_no prev off = ok []
fixed_rounds u (suc rounds) body page_no prev off = do
  id_bytes ← ok_or (get_range body off 16) (malformed_page page_no "fts posting id")
  guard (behind prev (u.from_bytes id_bytes)) (malformed_page page_no "unsorted fts postings")
  term_freq ← read_u32_at body (off + 16) page_no
  guard (not (term_freq == 0)) (malformed_page page_no "fts posting zero term_freq")
  rest ← fixed_rounds u rounds body page_no (some (u.from_bytes id_bytes)) (off + posting_len)
  ok (record { record_id = u.from_bytes id_bytes; term_freq = term_freq } ∷ rest)

unfoldable pub decode_fixed_width : UlidBytes → Bytes → ℕ → Result Postings
unfolding fixed_rounds
decode_fixed_width u body page_no = do
  count ← read_u32_at body 0 page_no
  size ←
      ok_or (checked (count * posting_len)) (malformed_page page_no "fts postings count overflow")
  need ← ok_or (checked (4 + size)) (malformed_page page_no "fts postings length overflow")
  guard (leb need (length body)) (malformed_page page_no "fts postings truncated")
  entries ← fixed_rounds u count body page_no none 4
  ok (record { entries = entries })

unfoldable pub decode_plain : Bytes → ℕ → ℕ → ℕ → Result Postings
decode_plain body page_no count off = do
  reject_hostile_delta_count body count page_no
  r ← decode_delta_run body off count page_no []
  ok (record { entries = r.0 })

unfoldable pub decode_delta_varint : Bytes → ℕ → Result Postings
unfolding decode_plain
decode_delta_varint body page_no = do
  count ← read_u32_at body 0 page_no
  decode_plain body page_no count 4
