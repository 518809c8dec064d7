-- ===== src/Wal.antt =====
-- crates/embedmind-core/src/storage/wal.rs: the redo log. Here the recovery scan, over the bytes
-- of the log file; the children hold the log as the appends lay it out and what a scan of it finds.
pub mod Frames
pub mod Scan
pub mod Txns
pub mod Durability
pub mod Append
pub mod Atomic
pub mod Log
pub mod Recovery
pub mod Total
use embedmind.Prelude.{
  ℕ, zero, suc, ◌+◌, ◌^◌, Bool, true, false, Option, none, some, List, [], ◌∷◌, ◌++◌, length, leb,
  ltb, ◌==◌, if◌then◌else◌, not,
}
use embedmind.Error.{Result, ok, err, io, internal, unexpected_eof, ok_or, ◌>>=◌, ◌>>◌}
use embedmind.Bytes.{Bytes, get_range}
use embedmind.Format.{Xxh3, wal_header_len, wal_frame_header_len}
use embedmind.Format.WalFrame.{WalHeader, decode_wal_header, WalFrameHeader, decode_frame}
use embedmind.PageMap.{PageMap, extend}

pub record RecoveredWal : Type 0 where
  pub page_size : ℕ
  pub committed : PageMap ℕ

-- `VfsFile::read_at` of a live file.
unfoldable pub read_at : Bytes → ℕ → ℕ → Result Bytes
read_at file offset n = ok_or (get_range file offset n) (io unexpected_eof)

-- The variables of the scan's loop.
pub record ScanState : Type 0 where
  pub committed : PageMap ℕ
  pub pending : List (ℕ × ℕ)
  pub pending_txn : Option ℕ

-- `pending_txn.is_some_and(|t| t != txn_id)`
unfoldable pub interleaved : Option ℕ → ℕ → Bool
interleaved none txn_id = false
interleaved (some t) txn_id = not (t == txn_id)

-- What a valid frame does to the loop's variables; `image` is the offset of its page image.
unfoldable pub take_frame : ScanState → WalFrameHeader → ℕ → ScanState
take_frame s frame image =
    let pending = s.pending ++ ((frame.page_no, image) ∷ []) in
    if frame.commit
    then record { committed = extend s.committed pending; pending = []; pending_txn = none }
    else record { committed = s.committed; pending = pending; pending_txn = some frame.txn_id }

-- The loop of `scan`. A round that continues moves at least a frame header on.
unfoldable pub scan_loop : Xxh3 → ℕ → Bytes → WalHeader → ScanState → ℕ → Result (PageMap ℕ)
scan_loop x zero file header s offset = err (internal "scan out of fuel")
scan_loop x (suc fuel) file header s offset =
    let end = offset + (wal_frame_header_len + header.page_size) in
    if leb (2 ^ 64) end
    then ok s.committed
    else if ltb (length file) end
    then ok s.committed
    else do
      frame_header ← read_at file offset wal_frame_header_len
      image ← read_at file (offset + wal_frame_header_len) header.page_size
      elim (decode_frame x frame_header image header.salt) [
        | none ↦ ok s.committed
        | some frame ↦
            if interleaved s.pending_txn frame.txn_id
            then ok s.committed
            else (scan_loop x fuel file header (take_frame s frame (offset + wal_frame_header_len))
                end)
      ]

abbrev pub scan_start : ScanState
scan_start = record { committed = []; pending = []; pending_txn = none }

unfoldable pub scan : Xxh3 → Bytes → Result (Option RecoveredWal)
unfolding scan_loop read_at
scan x file = if ltb (length file) wal_header_len then ok none else do
  header_buf ← read_at file 0 wal_header_len
  elim (decode_wal_header header_buf) [
    | none ↦ ok none
    | some header ↦ do
      committed ← scan_loop x (length file) file header scan_start wal_header_len
      ok (some (record { page_size = header.page_size; committed = committed }))
  ]
