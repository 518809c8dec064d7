-- ===== src/Wal/Txns.antt =====
-- The log as a list of transactions, and what a scan of their whole frames commits.
use embedmind.Prelude.{
  ℕ, ◌+◌, ◌-◌, ◌<◌, ◌≡◌, refl, ◌∙◌, inl, inr, false, none, some, List, [], ◌∷◌, ◌++◌, append_assoc,
  arith, leb, if◌then◌else◌, Bool-cases,
}
use embedmind.Bytes.{Bytes}
use embedmind.PageMap.{PageMap, extend}
use embedmind.Wal.{ScanState, take_frame, interleaved}
use embedmind.Wal.Frames.{Frame, txn_frames, whole_frames, scan_frames}

-- A transaction of the log: its id, its first page and the others.
pub record LogTxn : Type 0 where
  pub txn_id : ℕ
  pub first : ℕ × Bytes
  pub others : List (ℕ × Bytes)

abbrev pub pages : LogTxn → List (ℕ × Bytes)
pages t = t.first ∷ t.others

-- Where the images of a transaction lie, if its first frame starts at `offset`.
unfoldable pub image_offsets : ℕ → ℕ → List (ℕ × Bytes) → List (ℕ × ℕ)
image_offsets frame_len offset [] = []
image_offsets frame_len offset ((page_no, image) ∷ ps) =
    (page_no, offset + 32) ∷ image_offsets frame_len (offset + frame_len) ps

unfoldable pub size_of : ℕ → List (ℕ × Bytes) → ℕ
size_of frame_len [] = 0
size_of frame_len (p ∷ ps) = frame_len + size_of frame_len ps

abbrev pub frames_of : List LogTxn → List Frame
frames_of [] = []
frames_of (t ∷ ts) = txn_frames t.txn_id (pages t) ++ frames_of ts

-- The specification of recovery: the page index after the transactions that end within `m` bytes
-- from `offset` on, in order; the first that does not ends the log.
unfoldable pub committed_within : ℕ → ℕ → ℕ → List LogTxn → PageMap ℕ → PageMap ℕ
committed_within frame_len m offset [] index = index
committed_within frame_len m offset (t ∷ ts) index =
    let size = size_of frame_len (pages t) in
    let rest =
      committed_within frame_len (m - size) (offset + size) ts
        (extend index (image_offsets frame_len offset (pages t))) in
    if leb size m then rest else index

-- Of one transaction: `pending` holds its earlier pages, from a frame of the same transaction.
abbrev OwnPending : ScanState → ℕ → Type 0
OwnPending s txn_id = interleaved s.pending_txn txn_id ≡ false

own_txn : (t : ℕ) → interleaved (some t) t ≡ false
unfolding interleaved
own_txn t = ground arith

scan_txn :
    (frame_len m txn_id : ℕ) (p : ℕ × Bytes) (ps : List (ℕ × Bytes)) (fs : List Frame)
    (s : ScanState) (offset : ℕ)
    → 0 < frame_len
    → OwnPending s txn_id
    → scan_frames frame_len (whole_frames frame_len m (txn_frames txn_id (p ∷ ps) ++ fs)) s offset
      ≡ (if leb (size_of frame_len (p ∷ ps)) m
          then scan_frames frame_len
              (whole_frames frame_len (m - size_of frame_len (p ∷ ps)) fs)
              (record {
                committed =
                    extend s.committed (s.pending ++ image_offsets frame_len offset (p ∷ ps));
                pending = [];
                pending_txn = none;
              })
              (offset + size_of frame_len (p ∷ ps))
          else s.committed)
unfolding scan_frames whole_frames txn_frames size_of image_offsets take_frame
scan_txn frame_len m txn_id p [] fs s offset pos own = elim (Bool-cases (leb frame_len m)) [
  | inl y ↦ let e : frame_len + 0 ≡ frame_len = omega arith in rw (e, y, own)
  | inr n ↦ let e : frame_len + 0 ≡ frame_len = omega arith in rw (e, n)
]
scan_txn frame_len m txn_id p (q ∷ qs) fs s offset pos own =
    let size : ℕ = size_of frame_len (q ∷ qs) in
    let images : List (ℕ × ℕ) = image_offsets frame_len (offset + frame_len) (q ∷ qs) in
    let s' =
      take_frame s (record { page_no = p.0; txn_id = txn_id; commit = false }) (offset + 32) in
    let ih =
      scan_txn frame_len (m - frame_len) txn_id q qs fs s' (offset + frame_len) pos
        (own_txn txn_id) in
    let e2 : m - (frame_len + size) ≡ m - frame_len - size = omega arith in
    let e3 : offset + (frame_len + size) ≡ offset + frame_len + size = omega arith in
    let e4 = append_assoc s.pending ((p.0, offset + 32) ∷ []) images in
    elim (Bool-cases (leb frame_len m)) [
      | inl y ↦
          let e1 : leb (frame_len + size) m ≡ leb size (m - frame_len) = ground arith in
          rw (y, own, e1, e2, e3, ← e4) ih
      | inr n ↦ let e1 : leb (frame_len + size) m ≡ false = ground arith in rw (n, e1)
    ]

none_pending : (t : ℕ) → interleaved none t ≡ false
unfolding interleaved
none_pending t = refl

-- The scan of the whole frames of a log commits what the specification says.
pub scan_txns :
    (frame_len : ℕ) (ts : List LogTxn) (m offset : ℕ) (index : PageMap ℕ)
    → 0 < frame_len
    → scan_frames frame_len
        (whole_frames frame_len m (frames_of ts))
        (record { committed = index; pending = []; pending_txn = none })
        offset
      ≡ committed_within frame_len m offset ts index
unfolding committed_within
scan_txns frame_len [] m offset index pos = unfold scan_frames whole_frames in refl
scan_txns frame_len (t ∷ ts) m offset index pos =
    let size : ℕ = size_of frame_len (pages t) in
    let s0 : ScanState = record { committed = index; pending = []; pending_txn = none } in
    let one =
      scan_txn frame_len m t.txn_id t.first t.others (frames_of ts) s0 offset pos
        (none_pending t.txn_id) in
    let ih =
      scan_txns frame_len ts (m - size) (offset + size)
        (extend index (image_offsets frame_len offset (pages t))) pos in
    one ∙ rw ih
