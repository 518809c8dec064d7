-- ===== src/Record/Filters.antt =====
-- crates/embedmind-core/src/record.rs: when `Filter::matches` fails.
use embedmind.Prelude.{ℕ, ◌≡◌, refl, Bool, true, false, not, Option, none, some, ◌==◌}
use embedmind.Error.{Result, ok, err}
use embedmind.Record.{
  Scalar, null, bool, i64, f64, str, Floats, Filter, eq, range, matches, same_type_eq, match_eq,
  match_range,
}

abbrev pub is_err : Result Bool → Bool
is_err (ok b) = false
is_err (err e) = true

-- Which of the five types a value has.
abbrev pub kind_of : Scalar → ℕ
kind_of null = 0
kind_of (bool b) = 1
kind_of (i64 n) = 2
kind_of (f64 n) = 3
kind_of (str s) = 4

abbrev pub is_numeric : Scalar → Bool
is_numeric (i64 n) = true
is_numeric (f64 n) = true
is_numeric _ = false

eq_fails :
    (F : Floats) (want stored : Scalar)
    → is_err (matches F (eq want) (some stored)) ≡ not (kind_of want == kind_of stored)
unfolding matches same_type_eq match_eq
eq_fails F null null = refl
eq_fails F (bool a) (bool b) = refl
eq_fails F (i64 a) (i64 b) = refl
eq_fails F (f64 a) (f64 b) = refl
eq_fails F (str a) (str b) = refl
eq_fails F _ _ = refl

range_fails :
    (F : Floats) (min max : Option ℕ) (stored : Scalar)
    → is_err (matches F (range min max) (some stored)) ≡ not (is_numeric stored)
unfolding matches match_range
range_fails F min max (i64 n) = refl
range_fails F min max (f64 n) = refl
range_fails F min max _ = refl

-- A filter on an absent key is false and no error; on a stored value, an equality filter fails
-- exactly if the value has another type, and a range filter exactly if it is no number.
pub matches_fails :
    (F : Floats) (filter : Filter) (want stored : Scalar) (min max : Option ℕ)
    → (matches F filter none ≡ ok false)
      × (is_err (matches F (eq want) (some stored)) ≡ not (kind_of want == kind_of stored))
      × (is_err (matches F (range min max) (some stored)) ≡ not (is_numeric stored))
unfolding matches
matches_fails F filter want stored min max =
    (refl, eq_fails F want stored, range_fails F min max stored)
