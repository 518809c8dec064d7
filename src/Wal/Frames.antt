-- ===== src/Wal/Frames.antt =====
-- The log as a list of frames, the scan of such a list, and the frames of a transaction.
use embedmind.Prelude.{ℕ, ◌+◌, ◌-◌, Bool, true, false, List, [], ◌∷◌, ◌++◌, leb, if◌then◌else◌}
use embedmind.Bytes.{Bytes}
use embedmind.Format.{Xxh3}
use embedmind.Format.WalFrame.{WalFrameHeader, encode_frame}
use embedmind.PageMap.{PageMap}
use embedmind.Wal.{ScanState, take_frame, interleaved}

pub record Frame : Type 0 where
  pub header : WalFrameHeader
  pub image : Bytes

-- The bytes that `append_txn` writes for a frame.
unfoldable pub frame_bytes : Xxh3 → ℕ → Frame → Bytes
frame_bytes x salt f = encode_frame x f.header f.image salt ++ f.image

unfoldable pub log_bytes : Xxh3 → ℕ → List Frame → Bytes
log_bytes x salt [] = []
log_bytes x salt (f ∷ fs) = frame_bytes x salt f ++ log_bytes x salt fs

-- `i + 1 == pages.len()`, by what is left.
unfoldable pub is_last : List (ℕ × Bytes) → Bool
is_last [] = true
is_last (p ∷ ps) = false

-- One frame a page; the last carries the commit flag.
unfoldable pub txn_frames : ℕ → List (ℕ × Bytes) → List Frame
unfolding is_last
txn_frames txn_id [] = []
txn_frames txn_id ((page_no, image) ∷ rest) =
    record {
      header = record { page_no = page_no; txn_id = txn_id; commit = is_last rest };
      image = image;
    }
    ∷ txn_frames txn_id rest

-- The frames that lie whole within the first `m` bytes.
unfoldable pub whole_frames : ℕ → ℕ → List Frame → List Frame
whole_frames frame_len m [] = []
whole_frames frame_len m (f ∷ fs) =
    let rest = whole_frames frame_len (m - frame_len) fs in if leb frame_len m then f ∷ rest else []

-- The scan of valid frames that start at `offset`.
unfoldable pub scan_frames : ℕ → List Frame → ScanState → ℕ → PageMap ℕ
scan_frames frame_len [] s offset = s.committed
scan_frames frame_len (f ∷ fs) s offset =
    let rest =
      scan_frames frame_len fs (take_frame s f.header (offset + 32)) (offset + frame_len) in
    if interleaved s.pending_txn f.header.txn_id then s.committed else rest
