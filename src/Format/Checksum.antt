-- ===== src/Format/Checksum.antt =====
-- A stamped page passes its check, and stamping leaves the rest of the page alone.
use embedmind.Prelude.{ℕ, ◌+◌, ◌-◌, ◌≤◌, ◌≡◌, ap, true, some, length, take, arith}
use embedmind.Bytes.{Bytes, get_range, le_bytes, splice, read_u64}
use embedmind.Bytes.Le.{length-le_bytes, from_le-le_bytes}
use embedmind.Bytes.Range.{length-splice, read-splice_self, read-splice_below, take-splice_below}
use embedmind.Format.{
  Xxh3, page_checksum, stamp_page_checksum, page_checksum_is_valid, page_size_is_valid,
}

pub page_size_bounds : (p : ℕ) → page_size_is_valid p ≡ true → (512 ≤ p) × (p ≤ 65536)
unfolding page_size_is_valid
page_size_bounds p h = ground arith

pub length-stamp : (x : Xxh3) (page : Bytes) → length (stamp_page_checksum x page) ≡ length page
unfolding stamp_page_checksum
length-stamp x page = length-splice page _ _

-- A range before the trailer is as it was.
pub get_range-stamp :
    (x : Xxh3) (page : Bytes) (o n : ℕ)
    → o + n + 8 ≤ length page
    → get_range (stamp_page_checksum x page) o n ≡ get_range page o n
unfolding get_range stamp_page_checksum
get_range-stamp x page o n h =
    let sum = le_bytes 8 (page_checksum x page) in
    ground (
      arith,
      length-splice page (length page - 8) sum,
      read-splice_below page (length page - 8) sum o n (omega arith),
    )

body-splice :
    (page val : Bytes)
    → take (length (splice page (length page - 8) val) - 8) (splice page (length page - 8) val)
      ≡ take (length page - 8) page
body-splice page val =
    rw (length-splice page (length page - 8) val)
      (take-splice_below page (length page - 8) val (length page - 8) (omega arith))

checksum-stamp :
    (x : Xxh3) (page : Bytes) → page_checksum x (stamp_page_checksum x page) ≡ page_checksum x page
unfolding page_checksum stamp_page_checksum
checksum-stamp x page = ap (x.hash 0) (body-splice page (le_bytes 8 (page_checksum x page)))

trailer-stamp :
    (x : Xxh3) (page : Bytes)
    → 8 ≤ length page
    → read_u64 (stamp_page_checksum x page) (length page - 8) ≡ some (page_checksum x page)
unfolding read_u64 get_range stamp_page_checksum
trailer-stamp x page h =
    let c = page_checksum x page in
    let sum = le_bytes 8 c in
    let r = read-splice_self page (length page - 8) sum (omega (arith, length-le_bytes 8 c)) in
    let r' = rw (length-le_bytes 8 c) at r in
    ground
      (arith, r', length-splice page (length page - 8) sum, from_le-le_bytes 8 c (x.hash-lt 0 _))

-- Every page of at least a trailer's length passes its check once it is stamped.
pub checksum_is_valid-stamp :
    (x : Xxh3) (page : Bytes)
    → 8 ≤ length page
    → page_checksum_is_valid x (stamp_page_checksum x page) ≡ true
unfolding page_checksum_is_valid
checksum_is_valid-stamp x page h =
    rw (length-stamp, trailer-stamp x page h, checksum-stamp) (ground arith)
