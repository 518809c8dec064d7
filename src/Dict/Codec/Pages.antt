-- ===== src/Dict/Codec/Pages.antt =====
-- crates/embedmind-core/src/index/dict.rs: a page of the dictionary with its header, its body and
-- its checksum.
use embedmind.Prelude.{
  ℕ, ◌+◌, ◌-◌, ◌^◌, ◌≤◌, ◌<◌, ◌≡◌, sym, ◌∙◌, true, some, length, replicate, length-replicate, arith,
}
use embedmind.Bytes.{Bytes, write_bytes}
use embedmind.Bytes.Range.{get_range-write_self, get_range-write_below, length-write_bytes}
use embedmind.Bytes.Reads.{Reads}
use embedmind.Format.{Xxh3, stamp_page_checksum}
use embedmind.Format.Checksum.{length-stamp, get_range-stamp}
use embedmind.Format.Page as P
use embedmind.Format.Page.{PageHeader, encode_into}
use embedmind.Format.Page.Laws.{decode-kept, length-encode_into}
use embedmind.Dict.{DictSpec, same_type}
use embedmind.Dict.Codec.{fresh_page}
use embedmind.Dict.Fields.{put}

-- What a stamped page has of the header and of the bytes behind it.
pub record Framed (page : Bytes) (header : PageHeader) (page_size : ℕ) (bytes : Bytes)
    : Type 0 where
  pub size : length page ≡ page_size
  pub head : P.decode page ≡ some header
  pub body : Reads page 16 bytes

pub fresh_page-Framed :
    (x : Xxh3) (spec : DictSpec) (page_size n : ℕ) (bytes : Bytes)
    → n < 2 ^ 32
    → 24 ≤ page_size
    → 16 + length bytes ≤ page_size - 8
    → Framed
        (stamp_page_checksum x (put bytes (fresh_page spec page_size n)).0)
        (record { page_type = spec.dict; entry_count = n; next_page = 0 })
        page_size
        bytes
unfolding fresh_page
fresh_page-Framed x spec page_size n bytes few big fits =
    let h : PageHeader = record { page_type = spec.dict; entry_count = n; next_page = 0 } in
    let zeros : Bytes = replicate page_size 0 in
    let zeros_len = length-replicate {A = ℕ} page_size 0 in
    let blank = encode_into h zeros in
    let blank_len : length blank ≡ page_size = length-encode_into h zeros ∙ zeros_len in
    let written = write_bytes blank 16 bytes in
    let len : length written ≡ page_size = length-write_bytes blank 16 bytes ∙ blank_len in
    let page = stamp_page_checksum x written in
    let size : length page ≡ page_size = length-stamp x written ∙ len in
    record {
      size = size;
      head =
          decode-kept h zeros page (record { entry_count = few; next_page = omega arith })
            (omega arith) (size ∙ sym zeros_len)
            (λ o k le.
              get_range-stamp x written o k (omega arith)
              ∙ get_range-write_below blank 16 bytes o k le);
      body =
          get_range-stamp x written 16 (length bytes) (omega arith)
          ∙ get_range-write_self blank 16 bytes (omega arith);
    }

pub fresh_page-room :
    (spec : DictSpec) (page_size n k : ℕ)
    → 16 + k ≤ page_size
    → (fresh_page spec page_size n).1 + k ≤ length (fresh_page spec page_size n).0
unfolding fresh_page
fresh_page-room spec page_size n k h =
    let zeros : Bytes = replicate page_size 0 in
    let header : PageHeader = record { page_type = spec.dict; entry_count = n; next_page = 0 } in
    omega (arith, length-encode_into header zeros, length-replicate {A = ℕ} page_size 0)

pub same_type_refl : (t : P.PageType) → same_type t t ≡ true
unfolding same_type
same_type_refl t = ground arith
