-- ===== src/Tests/Postings.antt =====
-- The theorems on the full-text index at concrete inputs.
use Prim.Native.Nat.{min}
use embedmind.Prelude.{
  ℕ, zero, suc, ◌+◌, ◌-◌, ◌*◌, ◌%◌, ◌^◌, ◌<◌, ◌≡◌, refl, ap, inl, inr, true, some, List, [], ◌∷◌,
  length, leb, leb→le, if◌then◌else◌, ◌==◌, arith,
}
use embedmind.Error.{ok}
use embedmind.Bytes.{Bytes, le_bytes, from_le, get_range, read_u32}
use embedmind.Dict.Fields.{read_u32_at}
use embedmind.Bytes.Le.{length-le_bytes, from_le-le_bytes}
use embedmind.Fts.{Posting, frame_of_reference, for_format_version}
use embedmind.Fts.Runs.Sorted.{Valid, IsSorted}
use embedmind.Fts.Postings.{
  Postings, UlidBytes, upsert_entry, upsert, encode, encode_entries, encode_skip, decode_plain,
  skip_index, blocks_of, skip_bytes, blocks_body, block_bytes,
}
use embedmind.Fts.Runs.{
  encode_for_block, delta_stream, max_delta, wrapping_sub, tf_stream, max_tf, encode_delta_run,
  delta_run, reject_hostile_delta_count, decode_delta_run, delta_rounds, next_id, term_freq_of,
}
use embedmind.Fts.Fixed.{checked, put_fixed, byte_width, bit_len}
use embedmind.Fts.Varint.{put_varint, varint_loop, read_varint, read_varint_loop}
use embedmind.Fts.Postings.Skip.{decode, term_freq_in, lookup_via_skip}
use embedmind.Fts.Postings.Fixed.{UlidLaws}
use embedmind.Fts.Postings.RoundTrip.{decode-encode_layouts}
use embedmind.Fts.Postings.Equivalent.{lookup_via_skip-encode}
use embedmind.Fts.Postings.Upsert.{lookup_via_skip-upsert}
use embedmind.Fts.Postings.Accepted.{decode-IsSorted}
use embedmind.Fts.Tokenize.{Unicode, tokenize, doc_len, doc_len-tokenize}

-- Identifiers as 16 bytes.
abbrev short_ulids : UlidBytes
short_ulids = record { to_bytes = λ id. le_bytes 16 id; from_bytes = λ bs. from_le bs % 2 ^ 128 }

short_ulids-UlidLaws : UlidLaws short_ulids
short_ulids-UlidLaws = record {
  length-to_bytes = λ id. length-le_bytes 16 id;
  from_bytes-lt = λ bs h. omega arith;
  from_bytes-to_bytes = λ id h. omega (arith, from_le-le_bytes 16 id h);
}

-- As many documents in a row as there is an index of blocks for.
abbrev row : ℕ → ℕ → List Posting
row zero first = []
row (suc n) first = record { record_id = first; term_freq = 1 } ∷ row n (first + 3)

abbrev many : Postings
many = record { entries = row 600 5 }

row-Valid :
    (n first i prev : ℕ) → prev < first → first + 3 * n < 2 ^ 128 → Valid (suc i) prev (row n first)
row-Valid zero first i prev h lt = tt
row-Valid (suc n) first i prev h lt = (
  inr (omega arith, h),
  omega arith,
  omega arith,
  omega arith,
  row-Valid n (first + 3) (suc i) first (omega arith) (omega arith),
)

row-IsSorted : (n first : ℕ) → first + 3 * n < 2 ^ 128 → IsSorted (row n first)
row-IsSorted zero first lt = tt
row-IsSorted (suc n) first lt = (
  inl (refl, refl),
  omega arith,
  omega arith,
  omega arith,
  row-Valid n (first + 3) 0 first (omega arith) (omega arith),
)

length-row : (n first : ℕ) → length (row n first) ≡ n
length-row zero first = refl
length-row (suc n) first = ap suc (length-row n (first + 3))

-- The body of the list, in the layout of the newest format version.
many_body : leb (length (encode short_ulids many frame_of_reference)) 4000 ≡ true
unfolding encode encode_entries encode_skip le_bytes skip_index blocks_of skip_bytes blocks_body
    block_bytes encode_for_block delta_stream put_fixed byte_width bit_len max_delta wrapping_sub
    tf_stream max_tf
many_body = refl

many_body-lt : length (encode short_ulids many frame_of_reference) < 2 ^ 32
many_body-lt = omega (arith, leb→le _ 4000 many_body)

newest : for_format_version 8 ≡ frame_of_reference
unfolding for_format_version
newest = refl

decode-encode_layouts_example :
    decode short_ulids (encode short_ulids many frame_of_reference) 9 frame_of_reference ≡ ok many
decode-encode_layouts_example =
    decode-encode_layouts short_ulids many 9 frame_of_reference short_ulids-UlidLaws
      (row-IsSorted 600 5 (omega arith)) (omega (arith, length-row 600 5)) many_body-lt

lookup_via_skip-encode_example :
    lookup_via_skip short_ulids
      (encode short_ulids many (for_format_version 8))
      9
      1400
      (for_format_version 8)
    ≡ ok (term_freq_in 1400 many.entries)
lookup_via_skip-encode_example =
    lookup_via_skip-encode short_ulids many 9 1400 8 short_ulids-UlidLaws (omega arith)
      (row-IsSorted 600 5 (omega arith)) (omega (arith, length-row 600 5)) (rw newest many_body-lt)

abbrev three : Postings
three = record { entries = row 3 5 }

-- A short list with an entry put in, in the layout of format version 5.
three_body : leb (length (encode short_ulids (upsert 8 4 three) (for_format_version 5))) 40 ≡ true
unfolding upsert_entry upsert for_format_version encode encode_entries encode_skip le_bytes
    encode_delta_run delta_run put_varint varint_loop wrapping_sub
three_body = refl

three_length : length (upsert_entry 8 4 (row 3 5)) ≡ 3
unfolding upsert_entry
three_length = refl

lookup_via_skip-upsert_example :
    lookup_via_skip short_ulids
      (encode short_ulids (upsert 8 4 three) (for_format_version 5))
      9
      8
      (for_format_version 5)
    ≡ ok (if 8 == 8 then some 4 else term_freq_in 8 three.entries)
lookup_via_skip-upsert_example =
    lookup_via_skip-upsert short_ulids three 9 8 5 8 4 short_ulids-UlidLaws (omega arith)
      (row-IsSorted 3 5 (omega arith)) (omega arith) (omega arith) (omega arith)
      (omega (arith, three_length)) (omega (arith, leb→le _ 40 three_body))

-- A body of two documents, as bytes.
abbrev raw_body : Bytes
raw_body = 2 ∷ 0 ∷ 0 ∷ 0 ∷ 0 ∷ 0 ∷ 0 ∷ 0 ∷ 5 ∷ 1 ∷ 200 ∷ 1 ∷ 7 ∷ []

abbrev raw_postings : Postings
raw_postings = record {
  entries =
      record { record_id = 5; term_freq = 1 } ∷ record { record_id = 205; term_freq = 7 } ∷ [];
}

raw_body-decode : decode short_ulids raw_body 9 frame_of_reference ≡ ok raw_postings
unfolding decode read_u32_at read_u32 get_range from_le decode_plain reject_hostile_delta_count
    checked decode_delta_run delta_rounds read_varint read_varint_loop next_id term_freq_of
raw_body-decode = refl

decode-IsSorted_example : IsSorted raw_postings.entries
decode-IsSorted_example =
    decode-IsSorted short_ulids raw_body 9 frame_of_reference raw_postings short_ulids-UlidLaws
      (omega arith) raw_body-decode

-- Letters are the bytes from 97 on.
abbrev ascii : Unicode
ascii = record {
  is_alphanumeric = λ ch. leb 97 ch;
  to_lowercase = λ ch. ch ∷ [];
  full = λ ch. omega arith;
}

doc_len-tokenize_example :
    doc_len ascii (97 ∷ 98 ∷ 32 ∷ 32 ∷ 99 ∷ [])
    ≡ min (length (tokenize ascii (97 ∷ 98 ∷ 32 ∷ 32 ∷ 99 ∷ []))) (2 ^ 32 - 1)
doc_len-tokenize_example = doc_len-tokenize ascii (97 ∷ 98 ∷ 32 ∷ 32 ∷ 99 ∷ [])
