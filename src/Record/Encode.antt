-- ===== src/Record/Encode.antt =====
-- crates/embedmind-core/src/record.rs, `MemoryRecord::encode`.
use Prim.Native.Nat.{bit_or}
use embedmind.Prelude.{
  ℕ, ◌^◌, ◌%◌, Bool, true, false, Option, none, some, [], ◌∷◌, ◌++◌, length, ltb, leb,
  if◌then◌else◌,
}
use embedmind.Error.{Result, ok, err, invalid_argument, guard, ◌>>=◌, ◌>>◌}
use embedmind.Bytes.{Bytes, le_bytes}
use embedmind.Format.HnswNode.{Ulids}
use embedmind.StringMap.{StringMap}
use embedmind.Record.{
  Scalar, null, bool, i64, f64, str, VecRef, MemoryRecord, max_record_len, max_metadata_entries,
}

abbrev pub flag_tombstone : ℕ
flag_tombstone = 1

abbrev pub flag_superseded : ℕ
flag_superseded = 2

-- `put_str`
unfoldable pub put_str : Bytes → Bytes → Result Bytes
put_str out s =
    if leb (2 ^ 32) (length s)
    then err (invalid_argument "string too long")
    else ok (out ++ (le_bytes 4 (length s) ++ s))

abbrev pub byte_of_bool : Bool → ℕ
byte_of_bool true = 1
byte_of_bool false = 0

-- A value behind its tag.
unfoldable pub put_scalar : Bytes → Scalar → Result Bytes
put_scalar out null = ok (out ++ 0 ∷ [])
put_scalar out (bool b) = ok (out ++ 1 ∷ byte_of_bool b ∷ [])
put_scalar out (i64 v) = ok (out ++ 2 ∷ le_bytes 8 v)
put_scalar out (f64 v) = ok (out ++ 3 ∷ le_bytes 8 v)
put_scalar out (str s) = put_str (out ++ 4 ∷ []) s

unfoldable pub put_entries : Bytes → StringMap Scalar → Result Bytes
put_entries out [] = ok out
put_entries out ((key, value) ∷ rest) = do
  out ← put_str out key
  out ← put_scalar out value
  put_entries out rest

unfoldable pub flags_of : Bool → Bool → ℕ
flags_of tombstone superseded =
    let flags = if tombstone then bit_or 0 flag_tombstone else 0 in
    if superseded then bit_or flags flag_superseded else flags

-- `unwrap_or("")`
abbrev pub unwrap_or_empty : Option Bytes → Bytes
unwrap_or_empty none = []
unwrap_or_empty (some s) = s

abbrev pub place_of : Option VecRef → ℕ × ℕ
place_of none = (0, 0)
place_of (some v) = (v.page_no, v.slot)

-- `MemoryRecord::encode`
unfoldable pub encode : (U : Ulids) → MemoryRecord U → Result Bytes
encode U r = do
  guard (leb (length r.metadata) max_metadata_entries)
      (invalid_argument "too many metadata entries")
  out ← put_str (U.to_bytes r.id ++ flags_of r.tombstone r.superseded ∷ []) r.content
  out ←
      put_str (out ++ (le_bytes 8 (place_of r.vec_ref).0 ++ le_bytes 2 (place_of r.vec_ref).1))
        (unwrap_or_empty r.project)
  out ← put_str out r.provenance.agent
  out ← put_str out (unwrap_or_empty r.provenance.session_id)
  out ←
      put_entries
        (out
          ++ (le_bytes 8 r.provenance.created_at_micros ++ le_bytes 2 (length r.metadata % 2 ^ 16)))
        r.metadata
  if ltb max_record_len (length out)
      then err (invalid_argument "record exceeds MAX_RECORD_LEN")
      else ok out
