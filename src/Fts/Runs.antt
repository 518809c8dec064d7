-- ===== src/Fts/Runs.antt =====
-- crates/embedmind-core/src/index/fts.rs: a run of postings, a whole list or one block, in its two
-- forms: `encode_delta_run` and `decode_delta_run`, variable-length differences; `encode_for_block`
-- and `decode_for_block`, two streams of a fixed width each.
pub mod Sorted
pub mod RoundTrip
pub mod Blocks
pub mod Bounds
pub mod Checked
use Prim.Native.Nat.{max}
use embedmind.Prelude.{
  ℕ, zero, suc, ◌+◌, ◌-◌, ◌*◌, ◌%◌, ◌^◌, Bool, ◌&&◌, ◌||◌, not, Option, List, [], ◌∷◌, ◌++◌, length,
  get_elem?, ltb, leb, ◌==◌, if◌then◌else◌,
}
use embedmind.Error.{Result, ok, err, malformed_page, guard, ok_or, ◌>>=◌, ◌>>◌}
use embedmind.Bytes.{Bytes}
use embedmind.Fts.{Posting, PostingsLayout, frame_of_reference}
use embedmind.Fts.Varint.{put_varint, read_varint}
use embedmind.Fts.Fixed.{checked, byte_width, put_fixed, read_fixed}

-- `id.wrapping_sub(prev)` of numbers of 128 bits
unfoldable pub wrapping_sub : ℕ → ℕ → ℕ
wrapping_sub id prev = (id + 2 ^ 128 - prev) % 2 ^ 128

-- The loop of `encode_delta_run`: what it appends behind the identifier `prev`.
unfoldable pub delta_run : ℕ → List Posting → Bytes
delta_run prev [] = []
delta_run prev (p ∷ ps) =
    put_varint (wrapping_sub p.record_id prev)
    ++ (put_varint p.term_freq ++ delta_run p.record_id ps)

-- `encode_delta_run`
unfoldable pub encode_delta_run : List Posting → Bytes
encode_delta_run entries = delta_run 0 entries

-- `reject_hostile_delta_count`
unfoldable pub reject_hostile_delta_count : Bytes → ℕ → ℕ → Result (Unit {0})
reject_hostile_delta_count body count page_no = do
  twice ← ok_or (checked (count * 2)) (malformed_page page_no "fts postings count overflow")
  min_need ← ok_or (checked (4 + twice)) (malformed_page page_no "fts postings length overflow")
  guard (leb min_need (length body)) (malformed_page page_no "fts postings truncated")

-- The identifier of round `i` of either decoder, from what was read.
unfoldable pub next_id : ℕ → ℕ → ℕ → ℕ → Result ℕ
next_id page_no i prev delta = do
  guard (not (ltb 0 i && delta == 0)) (malformed_page page_no "unsorted fts postings")
  if i == 0
      then ok delta
      else if leb (2 ^ 128) (prev + delta)
      then err (malformed_page page_no "fts posting id overflow")
      else ok (prev + delta)

-- The term frequency of a round, from what was read: `u32::try_from`, and the test for 0.
unfoldable pub term_freq_of : ℕ → ℕ → Result ℕ
term_freq_of page_no value = do
  guard (ltb value (2 ^ 32)) (malformed_page page_no "fts posting term_freq overflow")
  guard (not (value == 0)) (malformed_page page_no "fts posting zero term_freq")
  ok value

-- The loop of `decode_delta_run`, with the rounds left: the entries, and the offset behind them.
unfoldable pub delta_rounds : ℕ → Bytes → ℕ → ℕ → ℕ → ℕ → List Posting → Result (List Posting × ℕ)
delta_rounds zero body page_no i prev off entries = ok (entries, off)
delta_rounds (suc rounds) body page_no i prev off entries = do
  delta ← read_varint body off page_no
  id ← next_id page_no i prev delta.0
  value ← read_varint body delta.1 page_no
  term_freq ← term_freq_of page_no value.0
  let posting : Posting = record { record_id = id; term_freq = term_freq }
  delta_rounds rounds body page_no (suc i) id value.1 (entries ++ posting ∷ [])

-- `decode_delta_run`
unfoldable pub decode_delta_run : Bytes → ℕ → ℕ → ℕ → List Posting → Result (List Posting × ℕ)
decode_delta_run body off count page_no entries = delta_rounds count body page_no 0 0 off entries

-- The first loop of `encode_for_block`: the greatest difference and term frequency.
unfoldable pub max_delta : ℕ → List Posting → ℕ
max_delta prev [] = 0
max_delta prev (p ∷ ps) = max (wrapping_sub p.record_id prev) (max_delta p.record_id ps)

unfoldable pub max_tf : List Posting → ℕ
max_tf [] = 0
max_tf (p ∷ ps) = max p.term_freq (max_tf ps)

-- Its loops over the two streams.
unfoldable pub delta_stream : ℕ → ℕ → List Posting → Bytes
delta_stream width prev [] = []
delta_stream width prev (p ∷ ps) =
    put_fixed (wrapping_sub p.record_id prev) width ++ delta_stream width p.record_id ps

unfoldable pub tf_stream : ℕ → List Posting → Bytes
tf_stream width [] = []
tf_stream width (p ∷ ps) = put_fixed p.term_freq width ++ tf_stream width ps

-- `encode_for_block`
unfoldable pub encode_for_block : List Posting → Bytes
encode_for_block entries =
    let delta_width = byte_width (max_delta 0 entries) in
    let tf_width = byte_width (max_tf entries) in
    delta_width ∷ tf_width ∷ (delta_stream delta_width 0 entries ++ tf_stream tf_width entries)

-- The loop of `decode_for_block`, with the rounds left.
unfoldable pub for_rounds :
    ℕ → Bytes → ℕ → ℕ → ℕ → ℕ → ℕ → ℕ → ℕ → List Posting → Result (List Posting × ℕ)
for_rounds zero body page_no delta_width tf_width i prev delta_off tf_off entries =
    ok (entries, tf_off)
for_rounds (suc rounds) body page_no delta_width tf_width i prev delta_off tf_off entries = do
  delta ← read_fixed body delta_off delta_width page_no
  id ← next_id page_no i prev delta.0
  value ← read_fixed body tf_off tf_width page_no
  term_freq ← term_freq_of page_no value.0
  let posting : Posting = record { record_id = id; term_freq = term_freq }
  for_rounds rounds body page_no delta_width tf_width (suc i) id delta.1 value.1
      (entries ++ posting ∷ [])

-- `decode_for_block`
unfoldable pub decode_for_block : Bytes → ℕ → ℕ → ℕ → List Posting → Result (List Posting × ℕ)
decode_for_block body off count page_no entries = do
  delta_width ← ok_or (get_elem? body off) (malformed_page page_no "fts for widths truncated")
  tf_width ← ok_or (get_elem? body (off + 1)) (malformed_page page_no "fts for widths truncated")
  guard (leb 1 delta_width && (leb delta_width 16 && (leb 1 tf_width && leb tf_width 4)))
      (malformed_page page_no "fts for width out of range")
  stream_bytes ←
      ok_or (checked (count * (delta_width + tf_width)))
        (malformed_page page_no "fts for stream overflow")
  start ← ok_or (checked (off + 2)) (malformed_page page_no "fts for stream overflow")
  need ← ok_or (checked (start + stream_bytes)) (malformed_page page_no "fts for stream overflow")
  guard (leb need (length body)) (malformed_page page_no "fts for stream truncated")
  for_rounds count body page_no delta_width tf_width 0 0 (off + 2) (off + 2 + count * delta_width)
      entries

-- `decode_block_run`
unfoldable pub decode_block_run :
    PostingsLayout → Bytes → ℕ → ℕ → ℕ → List Posting → Result (List Posting × ℕ)
decode_block_run frame_of_reference body off count page_no entries =
    decode_for_block body off count page_no entries
decode_block_run _ body off count page_no entries = decode_delta_run body off count page_no entries
