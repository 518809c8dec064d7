-- ===== src/Record/Layout.antt =====
-- crates/embedmind-core/src/record.rs, `MemoryRecord::encode`: the bytes of a record.
use embedmind.Prelude.{
  ◌^◌, ◌%◌, ◌<◌, ◌≤◌, ◌≡◌, refl, ap, ◌∙◌, sym, true, false, ◌&&◌, Option, none, some, [], ◌∷◌, ◌++◌,
  append_assoc, append-nil, ◌*◌, length, All, ltb, leb, ◌==◌, arith,
}
use embedmind.Error.{ok}
use embedmind.Bytes.{Bytes, le_bytes}
use embedmind.Bytes.Utf8.{utf8_valid}
use embedmind.Format.HnswNode.{Ulids}
use embedmind.StringMap.{StringMap, IsSorted}
use embedmind.Record.{Scalar, null, bool, i64, f64, str, VecRef, MemoryRecord}
use embedmind.Record.Reader.{str_bytes}
use embedmind.Record.Encode.{
  put_str, put_scalar, put_entries, byte_of_bool, flags_of, unwrap_or_empty, place_of, encode,
}

-- A string that the format can hold: UTF-8, of a length of 32 bits.
abbrev pub IsText : Bytes → Type 0
IsText s = (length s < 2 ^ 32) × (utf8_valid s ≡ true)

abbrev pub IsScalar : Scalar → Type 0
IsScalar null = Unit
IsScalar (bool b) = Unit
IsScalar (i64 v) = v < 2 ^ 64
IsScalar (f64 v) = v < 2 ^ 64
IsScalar (str s) = IsText s

abbrev pub scalar_bytes : Scalar → Bytes
scalar_bytes null = 0 ∷ []
scalar_bytes (bool b) = 1 ∷ byte_of_bool b ∷ []
scalar_bytes (i64 v) = 2 ∷ le_bytes 8 v
scalar_bytes (f64 v) = 3 ∷ le_bytes 8 v
scalar_bytes (str s) = 4 ∷ str_bytes s

abbrev pub IsEntry : Bytes × Scalar → Type 0
IsEntry e = IsText e.0 × IsScalar e.1

abbrev pub entries_bytes : StringMap Scalar → Bytes
entries_bytes [] = []
entries_bytes ((key, value) ∷ m) = str_bytes key ++ (scalar_bytes value ++ entries_bytes m)

put_str-text : (out s : Bytes) → IsText s → put_str out s ≡ ok (out ++ str_bytes s)
unfolding put_str
put_str-text out s v =
    let fits : leb (2 ^ 32) (length s) ≡ false = ground (arith, v.0) in rw fits refl

put_scalar-bytes :
    (out : Bytes) (v : Scalar) → IsScalar v → put_scalar out v ≡ ok (out ++ scalar_bytes v)
unfolding put_scalar
put_scalar-bytes out null h = refl
put_scalar-bytes out (bool b) h = refl
put_scalar-bytes out (i64 v) h = refl
put_scalar-bytes out (f64 v) h = refl
put_scalar-bytes out (str s) h =
    put_str-text (out ++ 4 ∷ []) s h ∙ ap ok (append_assoc out (4 ∷ []) (str_bytes s))

put_entries-bytes :
    (out : Bytes) (m : StringMap Scalar)
    → All IsEntry m
    → put_entries out m ≡ ok (out ++ entries_bytes m)
unfolding put_entries
put_entries-bytes out [] h = ap ok (sym (append-nil out))
put_entries-bytes out ((key, value) ∷ m) (h, hs) =
    rw
      (
        put_str-text out key h.0,
        put_scalar-bytes (out ++ str_bytes key) value h.1,
        put_entries-bytes ((out ++ str_bytes key) ++ scalar_bytes value) m hs,
      )
      (ap ok (
        append_assoc (out ++ str_bytes key) (scalar_bytes value) (entries_bytes m)
        ∙ append_assoc out (str_bytes key) (scalar_bytes value ++ entries_bytes m)))

abbrev pub IsVecRef : Option VecRef → Type 0
IsVecRef none = Unit
IsVecRef (some v) =
    (v.page_no < 2 ^ 64) × (v.slot < 2 ^ 16) × ((v.page_no == 0 && v.slot == 0) ≡ false)

-- An optional string that is not the empty one, which stands for none.
abbrev pub IsOptionalText : Option Bytes → Type 0
IsOptionalText none = Unit
IsOptionalText (some []) = ⊥
IsOptionalText (some (c ∷ s)) = IsText (c ∷ s)

-- A record that the format can hold.
pub record IsRecord (U : Ulids) (r : MemoryRecord U) : Type 0 where
  pub content : IsText r.content
  pub vec_ref : IsVecRef r.vec_ref
  pub project : IsOptionalText r.project
  pub agent : IsText r.provenance.agent
  pub session_id : IsOptionalText r.provenance.session_id
  pub created : r.provenance.created_at_micros < 2 ^ 64
  pub count : length r.metadata ≤ 65535
  pub entries : All IsEntry r.metadata
  pub sorted : IsSorted r.metadata

pub optional-IsText : (o : Option Bytes) → IsOptionalText o → IsText (unwrap_or_empty o)
unfolding utf8_valid
optional-IsText none h = (omega arith, refl)
optional-IsText (some []) h = absurd h
optional-IsText (some (c ∷ s)) h = h

module _ (U : Ulids) (r : MemoryRecord U) where
  -- The parts of a record, in the order in which they are written.
  abbrev pub front : Bytes
  front = U.to_bytes r.id ++ flags_of r.tombstone r.superseded ∷ []

  abbrev pub place : Bytes
  place = le_bytes 8 (place_of r.vec_ref).0 ++ le_bytes 2 (place_of r.vec_ref).1

  abbrev pub tail : Bytes
  tail = le_bytes 8 r.provenance.created_at_micros ++ le_bytes 2 (length r.metadata)

  unfoldable pub record_bytes : Bytes
  record_bytes =
      front
      ++ (str_bytes r.content
          ++ (place
              ++ (str_bytes (unwrap_or_empty r.project)
                  ++ (str_bytes r.provenance.agent
                      ++ (str_bytes (unwrap_or_empty r.provenance.session_id)
                          ++ (tail ++ entries_bytes r.metadata))))))

  pub encode-record_bytes :
      IsRecord U r → length record_bytes ≤ 32 * 1024 * 1024 → encode U r ≡ ok record_bytes
  unfolding encode record_bytes
  encode-record_bytes v small =
      let few : leb (length r.metadata) 65535 ≡ true = ground (arith, v.count) in
      let narrow : length r.metadata % 2 ^ 16 ≡ length r.metadata = omega (arith, v.count) in
      let o1 = front ++ str_bytes r.content in
      let o2 = (o1 ++ place) ++ str_bytes (unwrap_or_empty r.project) in
      let o3 = o2 ++ str_bytes r.provenance.agent in
      let o4 = o3 ++ str_bytes (unwrap_or_empty r.provenance.session_id) in
      let out = (o4 ++ tail) ++ entries_bytes r.metadata in
      let same : out ≡ record_bytes = simp append_assoc in
      let fits : ltb (32 * 1024 * 1024) (length out) ≡ false = rw same (ground (arith, small)) in
      rw
        (
          few,
          narrow,
          put_str-text front r.content v.content,
          put_str-text (o1 ++ place) (unwrap_or_empty r.project)
              (optional-IsText r.project v.project),
          put_str-text o2 r.provenance.agent v.agent,
          put_str-text o3 (unwrap_or_empty r.provenance.session_id)
              (optional-IsText r.provenance.session_id v.session_id),
          put_entries-bytes (o4 ++ tail) r.metadata v.entries,
          fits,
        )
        (ap ok same)
