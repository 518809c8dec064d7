-- ===== src/Record/Reader.antt =====
-- crates/embedmind-core/src/record.rs, `Reader`: a position in a buffer, which every accessor checks
-- and moves on.
use embedmind.Prelude.{
  ℕ, ◌+◌, ◌-◌, ◌^◌, ◌<◌, ◌≡◌, refl, Option, none, some, ◌++◌, length, length-append, ltb, true,
  false, arith, if◌then◌else◌, String,
}
use embedmind.Error.{Result, ok, err, malformed_record}
use embedmind.Bytes.{Bytes, le_bytes, from_le, get_range}
use embedmind.Bytes.Le.{length-le_bytes, from_le-le_bytes}
use embedmind.Bytes.Reads.{Reads, Reads-fits, Reads-front, Reads-next}
use embedmind.Bytes.Utf8.{utf8_valid}

-- A method of the reader over `buf` at a position: what it read and where it stands then.
abbrev pub Read : Type 0 → Type 0
Read A = Bytes → ℕ → Result (A × ℕ)

abbrev pub continue : {A B : Type 0} → Result (A × ℕ) → (A → Read B) → Bytes → Result (B × ℕ)
continue (err e) f buf = err e
continue (ok (a, now)) f buf = f a buf now

infixl 5 ◌>>=◌ ◌>>◌
abbrev pub ◌>>=◌ : {A B : Type 0} → Read A → (A → Read B) → Read B
◌>>=◌ m f buf pos = continue (m buf pos) f buf

abbrev pub ◌>>◌ : {B : Type 0} → Read (Unit {0}) → Read B → Read B
m >> k = m >>= λ _. k

abbrev pub pure : {A : Type 0} → A → Read A
pure a buf pos = ok (a, pos)

abbrev pub require : Option (Unit {0}) → String → Read (Unit {0})
require none what buf pos = err (malformed_record what)
require (some u) what buf pos = ok (tt, pos)

taken : Option Bytes → ℕ → Result (Bytes × ℕ)
taken none now = err (malformed_record "truncated")
taken (some out) now = ok (out, now)

unfoldable pub bytes : ℕ → Read Bytes
unfolding taken
bytes n buf pos = taken (get_range buf pos n) (pos + n)

unfoldable pub uint : ℕ → Read ℕ
uint k = do b ← bytes k; pure (from_le b)

unfoldable pub u8 : Read ℕ
u8 = uint 1

unfoldable pub u16 : Read ℕ
u16 = uint 2

unfoldable pub u32 : Read ℕ
u32 = uint 4

unfoldable pub u64 : Read ℕ
u64 = uint 8

unfoldable pub checked_utf8 : String → Bytes → Read Bytes
checked_utf8 what s buf pos = if utf8_valid s then ok (s, pos) else err (malformed_record what)

-- `Reader::string`
unfoldable pub string : String → Read Bytes
string what = do
  len ← u32
  (λ buf pos. if ltb (length buf - pos) len then err (malformed_record what) else ok (tt, pos))
  s ← bytes len
  checked_utf8 what s

-- A length-prefixed string, as it is written.
abbrev pub str_bytes : Bytes → Bytes
str_bytes s = le_bytes 4 (length s) ++ s

module _ (buf : Bytes) (pos : ℕ) where
  pub bytes-of :
      (bs : Bytes) → Reads buf pos bs → bytes (length bs) buf pos ≡ ok (bs, pos + length bs)
  unfolding bytes
  bytes-of bs r = rw r refl

  pub uint-of :
      (k v : ℕ) → v < 256 ^ k → Reads buf pos (le_bytes k v) → uint k buf pos ≡ ok (v, pos + k)
  unfolding uint bytes
  uint-of k v lt r =
      let r' : get_range buf pos k ≡ some (le_bytes k v) = rw (length-le_bytes k v) at r in
      rw (r', from_le-le_bytes k v lt) refl

pub length-str_bytes : (s : Bytes) → length (str_bytes s) ≡ 4 + length s
length-str_bytes s =
    omega (arith, length-append (le_bytes 4 (length s)) s, length-le_bytes 4 (length s))

-- A string that was written reads back.
pub string-of :
    (what : String) (buf : Bytes) (pos : ℕ) (s : Bytes)
    → length s < 2 ^ 32
    → utf8_valid s ≡ true
    → Reads buf pos (str_bytes s)
    → string what buf pos ≡ ok (s, pos + 4 + length s)
unfolding string u32 checked_utf8
string-of what buf pos s lt valid r =
    let prefix =
      uint-of buf pos 4 (length s) lt (Reads-front buf pos (le_bytes 4 (length s)) s r) in
    let body = Reads-next buf pos 4 (le_bytes 4 (length s)) s (length-le_bytes 4 (length s)) r in
    let fits = Reads-fits buf (pos + 4) s body in
    let room : ltb (length buf - (pos + 4)) (length s) ≡ false = ground (arith, fits) in
    rw (prefix, room, bytes-of buf (pos + 4) s body, valid) refl
