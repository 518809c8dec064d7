-- ===== src/Error.antt =====
-- error.rs: the engine's typed errors and its result type.
use embedmind.Prelude.{ℕ, String, ◌≡◌, refl, Bool, true, false, Option, none, some}

-- What an `io::Error` of the file layer says.
pub data IoKind : Type 0 where
  crash unexpected_eof not_found already_exists failed_state : IoKind

pub data Error : Type 0 where
  io : IoKind → Error
  corrupt_page : ℕ → Error
  bad_header : Error
  unsupported_version : ℕ → ℕ → Error
  encrypted : Error
  write_locked : Error
  page_out_of_bounds : ℕ → ℕ → Error
  invalid_argument : String → Error
  malformed_page : ℕ → String → Error
  malformed_record : String → Error
  internal : String → Error

-- A result is an error or a value.
pub data Result {ℓ} (A : Type ℓ) : Type ℓ where
  err : Error → Result A
  ok : A → Result A

-- `Option::ok_or`
abbrev pub ok_or {ℓ} : {A : Type ℓ} → Option A → Error → Result A
ok_or (some value) missing = ok value
ok_or none missing = err missing

-- The operator `?`: an error ends the function, a value goes on.
infixl 5 ◌>>=◌
abbrev pub ◌>>=◌ {ℓ κ} : {A : Type ℓ} {B : Type κ} → Result A → (A → Result B) → Result B
err failure >>= next = err failure
ok value >>= next = next value

-- `if !test { return Err(e) }`
abbrev pub guard : Bool → Error → Result (Unit {0})
guard false failure = err failure
guard true failure = ok tt

infixl 5 ◌>>◌
abbrev pub ◌>>◌ {ℓ} : {B : Type ℓ} → Result (Unit {0}) → Result B → Result B
check >> next = check >>= λ _. next

-- What a function returned that did not end at a `?`.
pub question_ok {ℓ κ} :
    {A : Type ℓ} {B : Type κ} (first : Result A) (next : A → Result B) (last : B)
    → (first >>= next) ≡ ok last
    → (value : A) × (next value ≡ ok last) × (first ≡ ok value)
question_ok (err failure) next last returned = cc
question_ok (ok value) next last returned = (value, returned, refl)

-- Two functions that go on alike from what they are given.
pub question_same {ℓ κ} :
    {A : Type ℓ} {B : Type κ} (first : Result A) (f g : A → Result B)
    → ((value : A) → first ≡ ok value → f value ≡ g value)
    → (first >>= f) ≡ (first >>= g)
question_same (err failure) f g h = refl
question_same (ok value) f g h = h value refl

pub guard_same {ℓ} :
    {B : Type ℓ} (test : Bool) (failure : Error) (x y : Result B)
    → (test ≡ true → x ≡ y)
    → (guard test failure >> x) ≡ (guard test failure >> y)
guard_same true failure x y h = h refl
guard_same false failure x y h = refl

-- What a function returned that did not end at a guard.
pub guard_ok {ℓ} :
    {B : Type ℓ} (test : Bool) (failure : Error) (next : Result B) (last : B)
    → (guard test failure >> next) ≡ ok last
    → (test ≡ true) × (next ≡ ok last)
guard_ok true failure next last h = (refl, h)
guard_ok false failure next last h = cc

pub guard-true :
    (test : Bool) (failure : Error) (u : Unit {0}) → guard test failure ≡ ok u → test ≡ true
guard-true true failure u h = refl
guard-true false failure u h = cc

pub ok_or-some {ℓ} :
    {A : Type ℓ} (o : Option A) (failure : Error) (a : A) → ok_or o failure ≡ ok a → o ≡ some a
ok_or-some none failure a h = cc
ok_or-some (some b) failure a h = cc
