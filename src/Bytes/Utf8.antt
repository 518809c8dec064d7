-- ===== src/Bytes/Utf8.antt =====
-- `String::from_utf8` of the standard library: which byte strings are UTF-8. A string of the
-- program is its bytes.
use embedmind.Prelude.{
  ℕ, zero, suc, Bool, false, ◌&&◌, Option, none, some, [], ◌∷◌, leb, ltb, ◌==◌, if◌then◌else◌,
}
use embedmind.Bytes.{Bytes}

-- What may follow: how many continuation bytes, and the range of the first of them.
pub record Expect : Type 0 where
  pub count : ℕ
  pub low : ℕ
  pub high : ℕ

in_range : ℕ → ℕ → ℕ → Bool
in_range lo hi b = leb lo b && leb b hi

-- What a leading byte announces; `none` for a byte that starts no character.
lead : ℕ → Option Expect
unfolding in_range
lead b =
    if ltb b 0x80
    then some (record { count = 0; low = 0x80; high = 0xbf })
    else if in_range 0xc2 0xdf b
    then some (record { count = 1; low = 0x80; high = 0xbf })
    else if b == 0xe0
    then some (record { count = 2; low = 0xa0; high = 0xbf })
    else if b == 0xed
    then some (record { count = 2; low = 0x80; high = 0x9f })
    else if in_range 0xe1 0xef b
    then some (record { count = 2; low = 0x80; high = 0xbf })
    else if b == 0xf0
    then some (record { count = 3; low = 0x90; high = 0xbf })
    else if in_range 0xf1 0xf3 b
    then some (record { count = 3; low = 0x80; high = 0xbf })
    else if b == 0xf4
    then some (record { count = 3; low = 0x80; high = 0x8f })
    else none

-- One byte: the next expectation, or `none` if the byte does not fit.
follow : ℕ → ℕ → ℕ → ℕ → Option Expect
unfolding lead in_range
follow zero lo hi b = lead b
follow (suc k) lo hi b =
    if in_range lo hi b then some (record { count = k; low = 0x80; high = 0xbf }) else none

utf8_from : Option Expect → Bytes → Bool
unfolding follow
utf8_from none bs = false
utf8_from (some e) [] = e.count == 0
utf8_from (some e) (b ∷ bs) = utf8_from (follow e.count e.low e.high b) bs

unfoldable pub utf8_valid : Bytes → Bool
unfolding utf8_from
utf8_valid = utf8_from (some (record { count = 0; low = 0x80; high = 0xbf }))
