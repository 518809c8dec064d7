-- ===== src/Effect.antt =====
-- Methods that change a state and may fail: what was changed before a failure stays changed, so
-- the state comes back beside the error too.
use embedmind.Prelude.{◌≡◌, refl, if◌then◌else◌, Bool, true, false}
use embedmind.Error.{Error, Result, ok, err}

abbrev pub Exec : Type 0 → Type 0 → Type 0
Exec S A = S → Result A × S

abbrev pub continue : {S A B : Type 0} → Result A → (A → Exec S B) → Exec S B
continue (ok a) f s = f a s
continue (err e) f s = (err e, s)

infixl 5 ◌>>=◌ ◌>>◌
abbrev pub ◌>>=◌ : {S A B : Type 0} → Exec S A → (A → Exec S B) → Exec S B
◌>>=◌ m f s = continue (m s).0 f (m s).1

abbrev pub ◌>>◌ : {S A B : Type 0} → Exec S A → Exec S B → Exec S B
m >> k = m >>= λ _. k

abbrev pub pure : {S A : Type 0} → A → Exec S A
pure a s = (ok a, s)

abbrev pub raise : {S A : Type 0} → Error → Exec S A
raise e s = (err e, s)

-- `if !test { return Err(e) }`
abbrev pub require : {S : Type 0} → Bool → Error → Exec S (Unit {0})
require true e s = (ok tt, s)
require false e s = (err e, s)

abbrev pub gets : {S A : Type 0} → (S → A) → Exec S A
gets f s = (ok (f s), s)

abbrev pub modify : {S : Type 0} → (S → S) → Exec S (Unit {0})
modify f s = (ok tt, f s)

-- `?` on a value that was computed without the state.
abbrev pub lift : {S A : Type 0} → Result A → Exec S A
lift r s = (r, s)

-- A method that goes on from what the first part gave.
continue_ok :
    {S A B : Type 0} (r : Result A) (f : A → Exec S B) (s : S) (a : A)
    → r ≡ ok a
    → continue r f s ≡ f a s
continue_ok (err e) f s a h = cc
continue_ok (ok b) f s a h = let same : b ≡ a = cc in rw same refl

pub bind_ok :
    {S A B : Type 0} (m : Exec S A) (f : A → Exec S B) (s : S) (a : A)
    → (m s).0 ≡ ok a
    → (m >>= f) s ≡ f a (m s).1
bind_ok m f s a h = continue_ok (m s).0 f (m s).1 a h

-- What looks at a state and keeps it.
pub bind_keeps :
    {S A B : Type 0} (m : Exec S A) (f : A → Exec S B) (s : S)
    → (m s).1 ≡ s
    → ((a : A) → (f a s).1 ≡ s)
    → ((m >>= f) s).1 ≡ s
bind_keeps {S} {A} {B} m f s h k = rw h (kept (m s).0)
  where
    kept : (r : Result A) → (continue r f s).1 ≡ s
    kept (ok a) = k a
    kept (err e) = refl

pub require_keeps : {S : Type 0} (test : Bool) (e : Error) (s : S) → (require test e s).1 ≡ s
require_keeps true e s = refl
require_keeps false e s = refl

pub either_keeps :
    {S A : Type 0} (test : Bool) (r r' : Result A) (s : S)
    → (if◌then◌else◌ {A = Result A × S} test (r, s) (r', s)).1 ≡ s
either_keeps true r r' s = refl
either_keeps false r r' s = refl
