-- ===== src/Record/Decode.antt =====
-- crates/embedmind-core/src/record.rs, `MemoryRecord::decode`.
use embedmind.Prelude.{
  ℕ, zero, suc, Bool, true, false, ◌&&◌, not, bit_and, Option, none, some, [], ◌∷◌, length, ltb,
  ◌==◌, if◌then◌else◌, String,
}
use embedmind.Error.{Result, ok, err, malformed_record}
use embedmind.Bytes.{Bytes}
use embedmind.Format.HnswNode.{Ulids}
use embedmind.StringMap.{StringMap, insert}
use embedmind.Record.{Scalar, null, bool, i64, f64, str, VecRef, MemoryRecord, max_record_len}
use embedmind.Record.Encode.{flag_tombstone, flag_superseded}
use embedmind.Record.Reader.{Read, pure, ◌>>=◌, ◌>>◌, bytes, u8, u16, u64, string}

-- An error unless the test holds.
abbrev pub check : Bool → String → Read (Unit {0})
check true what buf pos = ok (tt, pos)
check false what buf pos = err (malformed_record what)

unfoldable pub bool_of : ℕ → Read Scalar
bool_of b buf pos =
    if b == 0
    then ok (bool false, pos)
    else if b == 1
    then ok (bool true, pos)
    else err (malformed_record "bool payload")

unfoldable pub scalar_of : ℕ → Read Scalar
scalar_of tag buf pos =
    if tag == 0
    then ok (null, pos)
    else if tag == 1
    then (u8 >>= bool_of) buf pos
    else if tag == 2
    then (u64 >>= λ v. pure (i64 v)) buf pos
    else if tag == 3
    then (u64 >>= λ v. pure (f64 v)) buf pos
    else if tag == 4
    then (string "string payload" >>= λ s. pure (str s)) buf pos
    else err (malformed_record "unknown scalar tag")

unfoldable pub decode_scalar : Read Scalar
decode_scalar = u8 >>= scalar_of

-- The loop over the entries; a key that is there already is an error.
unfoldable pub decode_entries : ℕ → StringMap Scalar → Read (StringMap Scalar)
decode_entries zero metadata = pure metadata
decode_entries (suc count) metadata = do
  key ← string "metadata key"
  value ← decode_scalar
  check (not (insert key value metadata).1) "duplicate metadata key"
  decode_entries count (insert key value metadata).0

unfoldable pub vec_ref_of : ℕ → ℕ → Option VecRef
vec_ref_of page_no slot =
    if page_no == 0 && slot == 0 then none else some (record { page_no = page_no; slot = slot })

abbrev pub non_empty : Bytes → Option Bytes
non_empty [] = none
non_empty (c ∷ s) = some (c ∷ s)

-- What `decode` reads, up to the test for trailing bytes.
unfoldable pub decode_record : (U : Ulids) → Read (MemoryRecord U)
decode_record U = do
  id ← bytes 16
  flags ← u8
  content ← string "content"
  page_no ← u64
  slot ← u16
  project ← string "project"
  agent ← string "provenance.agent"
  session_id ← string "provenance.session_id"
  created_at_micros ← u64
  count ← u16
  metadata ← decode_entries count []
  pure (record {
    id = U.from_bytes id;
    tombstone = not (bit_and flags flag_tombstone == 0);
    superseded = not (bit_and flags flag_superseded == 0);
    content = content;
    vec_ref = vec_ref_of page_no slot;
    project = non_empty project;
    provenance = record {
      agent = agent;
      session_id = non_empty session_id;
      created_at_micros = created_at_micros;
    };
    metadata = metadata;
  })

at_end : {A : Type 0} → Bytes → Result (A × ℕ) → Result A
at_end buf (err e) = err e
at_end buf (ok (r, pos)) =
    if pos == length buf then ok r else err (malformed_record "trailing bytes")

-- `MemoryRecord::decode`
unfoldable pub decode : (U : Ulids) → Bytes → Result (MemoryRecord U)
unfolding at_end
decode U buf =
    if ltb max_record_len (length buf)
    then err (malformed_record "record exceeds MAX_RECORD_LEN")
    else at_end buf (decode_record U buf 0)
