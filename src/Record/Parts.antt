-- ===== src/Record/Parts.antt =====
-- crates/embedmind-core/src/record.rs, `MemoryRecord::decode`: about the parts of a record in its
-- bytes.
use mathlib.Core.Path.{subst}
use embedmind.Prelude.{
  ℕ, ◌+◌, ◌^◌, ◌%◌, ◌<◌, ◌≡◌, refl, ap, Bool, true, false, not, bit_and, Option, none, some, [],
  ◌∷◌, ◌++◌, append_assoc, append-nil, length, length-append, All, ◌==◌, arith,
}
use embedmind.Error.{Result, ok}
use embedmind.Bytes.{Bytes, le_bytes}
use embedmind.Bytes.Le.{length-le_bytes}
use embedmind.Bytes.Reads.{Reads, Reads-front, Reads-back}
use embedmind.Bytes.Order.{IsBefore}
use embedmind.StringMap.{StringMap, IsSorted, Below, insert-last}
use embedmind.Wal.Durability.{All-append}
use embedmind.Record.{Scalar, null, bool, i64, f64, str, VecRef}
use embedmind.Record.Reader.{u8, u64, str_bytes, length-str_bytes, uint-of, string-of}
use embedmind.Record.Encode.{flags_of, unwrap_or_empty, place_of}
use embedmind.Record.Decode.{
  bool_of, scalar_of, decode_scalar, decode_entries, vec_ref_of, non_empty,
}
use embedmind.Record.Layout.{
  IsScalar, scalar_bytes, IsEntry, entries_bytes, IsVecRef, IsOptionalText,
}

pub byte-of :
    (buf : Bytes) (pos b : ℕ) (rest : Bytes)
    → b < 256
    → Reads buf pos (b ∷ rest)
    → u8 buf pos ≡ ok (b, pos + 1)
unfolding u8 le_bytes
byte-of buf pos b rest lt r =
    let e : b % 256 ≡ b = omega arith in
    let one : Reads buf pos (le_bytes 1 b) =
      unfold le_bytes in rw e (Reads-front buf pos (b ∷ []) rest r) in
    uint-of buf pos 1 b lt one

-- Two results at positions that are equal.
pub moved :
    {A : Type 0} (a : A) (p q : ℕ) → p ≡ q → ◌≡◌ {A = Result (A × ℕ)} (ok (a, p)) (ok (a, q))
moved {A} a p q e = ap (λ (n : ℕ). let r : Result (A × ℕ) = ok (a, n) in r) e

pub scalar-of :
    (buf : Bytes) (pos : ℕ) (v : Scalar)
    → IsScalar v
    → Reads buf pos (scalar_bytes v)
    → decode_scalar buf pos ≡ ok (v, pos + length (scalar_bytes v))
unfolding decode_scalar scalar_of bool_of u64
scalar-of buf pos null h r = rw (byte-of buf pos 0 [] (omega arith) r) refl
scalar-of buf pos (bool false) h r =
    rw
      (
        byte-of buf pos 1 (0 ∷ []) (omega arith) r,
        byte-of buf (pos + 1) 0 [] (omega arith) (Reads-back buf pos (1 ∷ []) (0 ∷ []) r),
      )
      (moved _ _ _ (omega arith))
scalar-of buf pos (bool true) h r =
    rw
      (
        byte-of buf pos 1 (1 ∷ []) (omega arith) r,
        byte-of buf (pos + 1) 1 [] (omega arith) (Reads-back buf pos (1 ∷ []) (1 ∷ []) r),
      )
      (moved _ _ _ (omega arith))
scalar-of buf pos (i64 v) h r =
    rw
      (
        byte-of buf pos 2 (le_bytes 8 v) (omega arith) r,
        uint-of buf (pos + 1) 8 v h (Reads-back buf pos (2 ∷ []) (le_bytes 8 v) r),
      )
      (moved _ _ _ (omega (arith, length-le_bytes 8 v)))
scalar-of buf pos (f64 v) h r =
    rw
      (
        byte-of buf pos 3 (le_bytes 8 v) (omega arith) r,
        uint-of buf (pos + 1) 8 v h (Reads-back buf pos (3 ∷ []) (le_bytes 8 v) r),
      )
      (moved _ _ _ (omega (arith, length-le_bytes 8 v)))
scalar-of buf pos (str s) h r =
    rw
      (
        byte-of buf pos 4 (str_bytes s) (omega arith) r,
        string-of "string payload" buf (pos + 1) s h.0 h.1
            (Reads-back buf pos (4 ∷ []) (str_bytes s) r),
      )
      (moved _ _ _ (omega (arith, length-str_bytes s)))

-- The keys that are still to come stand behind those that were read.
abbrev pub Follow : StringMap Scalar → StringMap Scalar → Type 0
Follow read m = All (λ (e : Bytes × Scalar). Below e.0 read) m

pub Follow-next :
    (read : StringMap Scalar) (key : Bytes) (value : Scalar) (m : StringMap Scalar)
    → Follow read m
    → All (λ (e : Bytes × Scalar). IsBefore key e.0) m
    → Follow (read ++ (key, value) ∷ []) m
Follow-next read key value [] h k = tt
Follow-next read key value (e ∷ m) (h, hs) (k, ks) = (
  All-append (λ (f : Bytes × Scalar). IsBefore f.0 e.0) read ((key, value) ∷ []) h (k, tt),
  Follow-next read key value m hs ks,
)

pub entries-of :
    (buf : Bytes) (pos : ℕ) (read m : StringMap Scalar)
    → All IsEntry m
    → IsSorted m
    → Follow read m
    → Reads buf pos (entries_bytes m)
    → decode_entries (length m) read buf pos ≡ ok (read ++ m, pos + length (entries_bytes m))
unfolding decode_entries
entries-of buf pos read [] h sorted follow r = rw (append-nil read) (moved _ _ _ (omega arith))
entries-of buf pos read ((key, value) ∷ m) (h, hs) (first, sorted) (above, follow) r =
    let more = scalar_bytes value ++ entries_bytes m in
    let key_read =
      string-of "metadata key" buf pos key h.0.0 h.0.1
        (Reads-front buf pos (str_bytes key) more r) in
    let at_value : Reads buf (pos + 4 + length key) more =
      subst (λ (p : ℕ). Reads buf p more) (omega (arith, length-str_bytes key))
        (Reads-back buf pos (str_bytes key) more r) in
    let value_read =
      scalar-of buf (pos + 4 + length key) value h.1
        (Reads-front buf (pos + 4 + length key) (scalar_bytes value) (entries_bytes m) at_value) in
    let at_rest =
      Reads-back buf (pos + 4 + length key) (scalar_bytes value) (entries_bytes m) at_value in
    let later =
      entries-of buf (pos + 4 + length key + length (scalar_bytes value))
        (read ++ (key, value) ∷ []) m hs sorted (Follow-next read key value m follow first)
        at_rest in
    rw
      (
        key_read,
        value_read,
        insert-last key value read above,
        later,
        append_assoc read ((key, value) ∷ []) m,
      )
      (moved _ _ _ (
        omega (
          arith,
          length-str_bytes key,
          length-append (str_bytes key) more,
          length-append (scalar_bytes value) (entries_bytes m),
        )))

pub Follow-nil : (m : StringMap Scalar) → Follow [] m
Follow-nil [] = tt
Follow-nil (e ∷ m) = (tt, Follow-nil m)

pub flags_lem :
    (tombstone superseded : Bool)
    → (not (bit_and (flags_of tombstone superseded) 1 == 0) ≡ tombstone)
      × (not (bit_and (flags_of tombstone superseded) 2 == 0) ≡ superseded)
      × (flags_of tombstone superseded < 256)
unfolding flags_of
flags_lem false false = (refl, refl, omega arith)
flags_lem false true = (refl, refl, omega arith)
flags_lem true false = (refl, refl, omega arith)
flags_lem true true = (refl, refl, omega arith)

pub vec_ref-of : (o : Option VecRef) → IsVecRef o → vec_ref_of (place_of o).0 (place_of o).1 ≡ o
unfolding vec_ref_of
vec_ref-of none h = refl
vec_ref-of (some v) h = rw h.2 refl

pub place_bounds :
    (o : Option VecRef) → IsVecRef o → ((place_of o).0 < 2 ^ 64) × ((place_of o).1 < 2 ^ 16)
place_bounds none h = omega arith
place_bounds (some v) h = (h.0, h.1)

pub non_empty-of : (o : Option Bytes) → IsOptionalText o → non_empty (unwrap_or_empty o) ≡ o
non_empty-of none h = refl
non_empty-of (some []) h = absurd h
non_empty-of (some (c ∷ s)) h = refl

-- What stands behind a string.
pub Reads-text :
    (buf : Bytes) (pos : ℕ) (s rest : Bytes)
    → Reads buf pos (str_bytes s ++ rest)
    → Reads buf (pos + 4 + length s) rest
Reads-text buf pos s rest r =
    subst (λ (p : ℕ). Reads buf p rest) (omega (arith, length-str_bytes s))
      (Reads-back buf pos (str_bytes s) rest r)
