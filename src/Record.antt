-- ===== src/Record.antt =====
-- crates/embedmind-core/src/record.rs: memory records and their encoding, and metadata filters.
-- A string is its bytes in UTF-8; an `i64` and an `f64` are their patterns of 64 bits.
pub mod Reader
pub mod Encode
pub mod Decode
pub mod Layout
pub mod Parts
pub mod RoundTrip
pub mod Filters
use embedmind.Prelude.{ℕ, ◌*◌, ◌==◌, Bool, true, false, ◌&&◌, Option, none, some}
use embedmind.Error.{Result, ok, err, invalid_argument}
use embedmind.Bytes.{Bytes, bytes_eq}
use embedmind.Format.HnswNode.{Ulids}
use embedmind.StringMap.{StringMap}

abbrev pub max_record_len : ℕ
max_record_len = 32 * 1024 * 1024

abbrev pub max_metadata_entries : ℕ
max_metadata_entries = 65535

pub record VecRef : Type 0 where
  pub page_no : ℕ
  pub slot : ℕ

pub data Scalar : Type 0 where
  null : Scalar
  bool : Bool → Scalar
  i64 : ℕ → Scalar
  f64 : ℕ → Scalar
  str : Bytes → Scalar

-- The floating-point operations of the language, on bit patterns: `==`, `<=` and `i64 as f64`.
pub record Floats : Type 0 where
  pub f64_eq : ℕ → ℕ → Bool
  pub f64_le : ℕ → ℕ → Bool
  pub of_i64 : ℕ → ℕ

pub data Filter : Type 0 where
  eq : Scalar → Filter
  range : Option ℕ → Option ℕ → Filter

-- `Scalar::as_ordered`
abbrev as_ordered : Floats → Scalar → Option ℕ
as_ordered F (i64 v) = some (F.of_i64 v)
as_ordered F (f64 v) = some v
as_ordered F _ = none

abbrev bool_eq : Bool → Bool → Bool
bool_eq true b = b
bool_eq false true = false
bool_eq false false = true

-- `want == stored` where `stored` has the type of `want`; `none` where it has not.
unfoldable pub same_type_eq : Floats → Scalar → Scalar → Option Bool
same_type_eq F null null = some true
same_type_eq F (bool a) (bool b) = some (bool_eq a b)
same_type_eq F (i64 a) (i64 b) = some (a == b)
same_type_eq F (f64 a) (f64 b) = some (F.f64_eq a b)
same_type_eq F (str a) (str b) = some (bytes_eq a b)
same_type_eq F _ _ = none

abbrev is_none_or : Option ℕ → (ℕ → Bool) → Bool
is_none_or none test = true
is_none_or (some bound) test = test bound

unfoldable pub match_eq : Option Bool → Result Bool
match_eq none =
    err (invalid_argument "recall filter type mismatch: stored value has a different type")
match_eq (some same) = ok same

unfoldable pub match_range : Floats → Option ℕ → Option ℕ → Option ℕ → Result Bool
match_range F min max none =
    err (invalid_argument "recall range filter requires a numeric stored value")
match_range F min max (some value) =
    ok (is_none_or min (λ lo. F.f64_le lo value) && is_none_or max (λ hi. F.f64_le value hi))

-- `Filter::matches`
unfoldable pub matches : Floats → Filter → Option Scalar → Result Bool
unfolding same_type_eq match_eq match_range
matches F filter none = ok false
matches F (eq want) (some stored) = match_eq (same_type_eq F want stored)
matches F (range min max) (some stored) = match_range F min max (as_ordered F stored)

pub record Provenance : Type 0 where
  pub agent : Bytes
  pub session_id : Option Bytes
  pub created_at_micros : ℕ

pub record MemoryRecord (U : Ulids) : Type 0 where
  pub id : U.Ulid
  pub tombstone : Bool
  pub superseded : Bool
  pub content : Bytes
  pub vec_ref : Option VecRef
  pub project : Option Bytes
  pub provenance : Provenance
  pub metadata : StringMap Scalar
