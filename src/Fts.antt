-- ===== src/Fts.antt =====
-- crates/embedmind-core/src/index/fts.rs: the full-text index. What its postings lists are written
-- with: variable-length and fixed-width integers, the runs of a list in either form, and the layouts
-- by the version of the file. An identifier is the number that `u128::from` gives for it, and a
-- cursor `&mut off` is handed on beside the value that was read.
pub mod Varint
pub mod Fixed
pub mod Runs
pub mod Postings
pub mod Tokenize
pub mod Meta
pub mod Document
use embedmind.Prelude.{ℕ, Bool, true, false, leb, if◌then◌else◌, List}

-- One posting: a document and how often the term occurs in it.
pub record Posting : Type 0 where
  pub record_id : ℕ
  pub term_freq : ℕ

pub data SkipEntry : Type 0 where
  v5 v6 : SkipEntry

pub data PostingsLayout : Type 0 where
  fixed_width delta_varint frame_of_reference : PostingsLayout
  delta_varint_skip : SkipEntry → PostingsLayout

abbrev pub posting_len : ℕ
posting_len = 20

abbrev pub delta_varint_min_format_version : ℕ
delta_varint_min_format_version = 4

abbrev pub skip_min_format_version : ℕ
skip_min_format_version = 5

abbrev pub skip_bound_min_format_version : ℕ
skip_bound_min_format_version = 6

abbrev pub frame_of_reference_min_format_version : ℕ
frame_of_reference_min_format_version = 8

abbrev pub skip_block_size : ℕ
skip_block_size = 128

abbrev pub skip_min_doc_freq : ℕ
skip_min_doc_freq = 512

abbrev pub skip_entry_len_v5 : ℕ
skip_entry_len_v5 = 24

abbrev pub skip_entry_len_v6 : ℕ
skip_entry_len_v6 = 40

abbrev pub max_varint_len : ℕ
max_varint_len = 19

-- `SkipEntry::len`
unfoldable pub entry_len : SkipEntry → ℕ
entry_len v5 = skip_entry_len_v5
entry_len v6 = skip_entry_len_v6

-- `SkipEntry::tail_off`
unfoldable pub tail_off : SkipEntry → ℕ
tail_off v5 = 16
tail_off v6 = 32

-- `PostingsLayout::for_format_version`
unfoldable pub for_format_version : ℕ → PostingsLayout
for_format_version version =
    if leb frame_of_reference_min_format_version version
    then frame_of_reference
    else if leb skip_bound_min_format_version version
    then delta_varint_skip v6
    else if leb skip_min_format_version version
    then delta_varint_skip v5
    else if leb delta_varint_min_format_version version
    then delta_varint
    else fixed_width
