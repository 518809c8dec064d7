-- ===== src/Wal/Append.antt =====
-- crates/embedmind-core/src/storage/wal.rs, `Wal`: appends, image reads and the reset, over the
-- files of the simulated storage.
use embedmind.Prelude.{ℕ, ◌+◌, Option, none, some, List, [], ◌∷◌, ◌++◌, length, ◌==◌}
use embedmind.Error.{invalid_argument}
use embedmind.Effect.{Exec, pure, require, gets, modify, ◌>>=◌, ◌>>◌}
use embedmind.Bytes.{Bytes}
use embedmind.Format.{Xxh3, wal_header_len, wal_frame_header_len}
use embedmind.Format as F
use embedmind.Format.WalFrame.{WalHeader, WalFrameHeader, encode_wal_header, encode_frame}
use embedmind.Wal.Frames.{is_last}
use embedmind.Vfs
use embedmind.Vfs.{SimState, SimFile}

-- `Wal`: the open log and the length of its valid content.
pub record Wal : Type 0 where
  pub file : SimFile
  pub page_size : ℕ
  pub salt : Option ℕ
  pub len : ℕ

-- The log beside the storage that it writes to.
pub record WalStore : Type 0 where
  pub wal : Wal
  pub sim : SimState

-- An operation of the storage.
abbrev pub on_sim : {A : Type 0} → Exec SimState A → Exec WalStore A
on_sim m s = ((m s.sim).0, record s { sim = (m s.sim).1 })

-- `Wal::new`
unfoldable pub new : SimFile → ℕ → Wal
new file page_size = record { file = file; page_size = page_size; salt = none; len = 0 }

-- The header of a generation that starts with the salt `fresh`.
abbrev pub generation : ℕ → ℕ → WalHeader
generation page_size fresh = record {
  format_version = F.format_version;
  page_size = page_size;
  salt = fresh;
}

-- The salt of the generation; the first append draws a fresh one and writes the header.
unfoldable pub start_generation : Option ℕ → ℕ → Exec WalStore ℕ
start_generation (some salt) fresh = pure salt
start_generation none fresh = do
  wal ← gets (λ (s : WalStore). s.wal)
  on_sim (Vfs.write_at wal.file (encode_wal_header (generation wal.page_size fresh)) 0)
  modify (λ s. record s { wal = record s.wal { salt = some fresh; len = wal_header_len } })
  pure fresh

-- The frames of a transaction, one write each.
unfoldable pub append_frames : Xxh3 → ℕ → ℕ → List (ℕ × Bytes) → Exec WalStore (List (ℕ × ℕ))
append_frames x salt txn_id [] = pure []
append_frames x salt txn_id ((page_no, image) ∷ rest) = do
  wal ← gets (λ (s : WalStore). s.wal)
  require (length image == wal.page_size) (invalid_argument "WAL image must be one page")
  let header : WalFrameHeader = record { page_no = page_no; txn_id = txn_id; commit = is_last rest }
  let frame = encode_frame x header image salt ++ image
  on_sim (Vfs.write_at wal.file frame wal.len)
  modify (λ s. record s { wal = record s.wal { len = wal.len + length frame } })
  offsets ← append_frames x salt txn_id rest
  pure ((page_no, wal.len + wal_frame_header_len) ∷ offsets)

-- `Wal::append_txn`; `fresh` is what `generate_salt` returns if a generation starts.
unfoldable pub append_txn : Xxh3 → ℕ → ℕ → List (ℕ × Bytes) → Exec WalStore (List (ℕ × ℕ))
append_txn x fresh txn_id pages = do
  current ← gets (λ (s : WalStore). s.wal.salt)
  salt ← start_generation current fresh
  offsets ← append_frames x salt txn_id pages
  file ← gets (λ (s : WalStore). s.wal.file)
  on_sim (Vfs.sync file)
  pure offsets

-- `Wal::read_image`
unfoldable pub read_image : ℕ → ℕ → Exec WalStore Bytes
read_image offset n = do
  file ← gets (λ (s : WalStore). s.wal.file)
  on_sim (Vfs.read_at file offset n)

-- `Wal::reset`
unfoldable pub reset : Exec WalStore (Unit {0})
reset = do
  file ← gets (λ (s : WalStore). s.wal.file)
  on_sim (Vfs.truncate file 0)
  on_sim (Vfs.sync file)
  modify (λ s. record s { wal = record s.wal { salt = none; len = 0 } })
