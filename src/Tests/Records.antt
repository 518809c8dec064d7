-- ===== src/Tests/Records.antt =====
-- The theorems on records and filters at concrete inputs.
use embedmind.Prelude.{◌≡◌, refl, true, false, none, some, [], ◌∷◌, ◌==◌, arith}
use embedmind.Error.{ok}
use embedmind.Bytes.{Bytes, le_bytes}
use embedmind.Bytes.Order.{bytes_cmp}
use embedmind.Bytes.Utf8.{utf8_valid}
use embedmind.Record.{i64, str, Floats, eq, range, MemoryRecord, matches}
use embedmind.Record.Encode.{encode}
use embedmind.Record.Decode.{decode}
use embedmind.Record.Layout.{IsRecord, record_bytes}
use embedmind.Record.RoundTrip.{decode-encode_record}
use embedmind.Record.Filters.{is_err, matches_fails}
use embedmind.Tests.Nodes.{short_ulids}

-- A record with a project, an embedding and two entries of metadata.
abbrev pub small_record : MemoryRecord short_ulids
small_record = record {
  id = (1, 2);
  tombstone = false;
  superseded = true;
  content = 104 ∷ 105 ∷ [];
  vec_ref = some (record { page_no = 3; slot = 4 });
  project = some (112 ∷ []);
  provenance = record { agent = 97 ∷ []; session_id = none; created_at_micros = 1000 };
  metadata = (107 ∷ [], i64 7) ∷ (108 ∷ [], str (120 ∷ [])) ∷ [];
}

small_record-IsRecord : IsRecord short_ulids small_record
unfolding utf8_valid bytes_cmp
small_record-IsRecord = record {
  content = (omega arith, refl);
  vec_ref = (omega arith, omega arith, refl);
  project = (omega arith, refl);
  agent = (omega arith, refl);
  session_id = tt;
  created = omega arith;
  count = omega arith;
  entries = (((omega arith, refl), omega arith), (((omega arith, refl), (omega arith, refl)), tt));
  sorted = ((refl, tt), (tt, tt));
}

decode-encode_record_example :
    (out : Bytes) × (encode short_ulids small_record ≡ ok out)
    × (decode short_ulids out ≡ ok small_record)
unfolding record_bytes le_bytes
decode-encode_record_example =
    decode-encode_record short_ulids small_record small_record-IsRecord (omega arith)

-- Patterns compared as numbers.
abbrev pub plain_floats : Floats
plain_floats = record { f64_eq = λ a b. a == b; f64_le = λ a b. true; of_i64 = λ n. n }

matches_fails_example :
    (matches plain_floats (eq (i64 5)) none ≡ ok false)
    × (is_err (matches plain_floats (eq (i64 5)) (some (str (120 ∷ [])))) ≡ true)
    × (is_err (matches plain_floats (range (some 1) none) (some (str (120 ∷ [])))) ≡ true)
matches_fails_example =
    matches_fails plain_floats (eq (i64 5)) (i64 5) (str (120 ∷ [])) (some 1) none
