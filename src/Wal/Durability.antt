-- ===== src/Wal/Durability.antt =====
-- A log cut anywhere: the scan finds exactly the transactions that lie whole before the cut.
use embedmind.Prelude.{
  ℕ, zero, ◌+◌, ◌-◌, ◌^◌, ◌<◌, ◌≡◌, refl, ◌∙◌, false, some, List, [], ◌∷◌, ◌++◌, length, take, drop,
  All, length-append, length-take, take-append_ge, drop-append_ge, arith, ltb,
}
use embedmind.Error.{ok}
use embedmind.Bytes.{Bytes, get_range}
use embedmind.Format.{Xxh3}
use embedmind.Format.WalFrame.{WalHeader, encode_wal_header}
use embedmind.Format.WalFrame.Laws.{IsWalHeader, length-encode_wal_header, decode-encode_wal_header}
use embedmind.Wal.{read_at, scan_start, scan}
use embedmind.Wal.Frames.{log_bytes, txn_frames}
use embedmind.Wal.Scan.{IsFrame, get_range-of-suffix, scan_loop-frames}
use embedmind.Wal.Txns.{LogTxn, pages, frames_of, committed_within, scan_txns}

-- The log file of a generation: its header and the frames of its transactions.
unfoldable pub log_file : Xxh3 → WalHeader → List LogTxn → Bytes
log_file x h ts = encode_wal_header h ++ log_bytes x h.salt (frames_of ts)

-- A transaction that can stand in a log: its numbers fit 64 bits and its images are pages.
abbrev pub IsPage : ℕ → ℕ × Bytes → Type 0
IsPage page_size p = (p.0 < 2 ^ 64) × (length p.1 ≡ page_size)

pub record IsTxn (page_size : ℕ) (t : LogTxn) : Type 0 where
  pub txn_id_lt : t.txn_id < 2 ^ 64
  pub pages_ok : All (IsPage page_size) (pages t)

pub txn_frames-IsFrame :
    (page_size txn_id : ℕ) (ps : List (ℕ × Bytes))
    → txn_id < 2 ^ 64
    → All (IsPage page_size) ps
    → All (IsFrame page_size) (txn_frames txn_id ps)
unfolding txn_frames
txn_frames-IsFrame page_size txn_id [] lt v = tt
txn_frames-IsFrame page_size txn_id (p ∷ ps) lt (vp, vps) = (
  record { header = record { page_no_lt = vp.0; txn_id_lt = lt }; image = vp.1 },
  txn_frames-IsFrame page_size txn_id ps lt vps,
)

pub All-append {ℓ κ} :
    {A : Type ℓ} (P : A → Type κ) (xs ys : List A) → All P xs → All P ys → All P (xs ++ ys)
All-append P [] ys h k = k
All-append P (x ∷ xs) ys (h, hs) k = (h, All-append P xs ys hs k)

pub frames_of-IsFrame :
    (page_size : ℕ) (ts : List LogTxn)
    → All (IsTxn page_size) ts
    → All (IsFrame page_size) (frames_of ts)
frames_of-IsFrame page_size [] v = tt
frames_of-IsFrame page_size (t ∷ ts) (v, vs) =
    All-append (IsFrame page_size) (txn_frames t.txn_id (pages t)) (frames_of ts)
      (txn_frames-IsFrame page_size t.txn_id (pages t) v.txn_id_lt v.pages_ok)
      (frames_of-IsFrame page_size ts vs)

-- A crash at any byte: of a log of well-formed transactions, shorter than 2^64 bytes, that is cut
-- after its first 32 + m bytes, the scan succeeds and finds the page index of exactly the
-- transactions whose frames all lie before the cut. What is left of a later transaction has no
-- effect.
pub scan-cut :
    (x : Xxh3) (h : WalHeader) (ts : List LogTxn) (m : ℕ)
    → IsWalHeader h
    → All (IsTxn h.page_size) ts
    → length (log_file x h ts) < 2 ^ 64
    → scan x (take (32 + m) (log_file x h ts))
      ≡ ok (
          some (record {
            page_size = h.page_size;
            committed = committed_within (32 + h.page_size) m 32 ts [];
          }))
unfolding scan log_file read_at
scan-cut x h ts m vh vts lt =
    let head = encode_wal_header h in
    let body = log_bytes x h.salt (frames_of ts) in
    let lh : length head ≡ 32 = length-encode_wal_header h in
    let file = head ++ take m body in
    let cut : take (32 + m) (head ++ body) ≡ file =
      take-append_ge (32 + m) head body (omega (arith, lh))
      ∙ (let z : 32 + m - length head ≡ m = omega (arith, lh) in rw z) in
    let la = length-append head (take m body) in
    let lb = length-append head body in
    let lt' : length file < 2 ^ 64 = omega (arith, la, lb, length-take m body) in
    let d : drop 32 file ≡ take m body =
      drop-append_ge 32 head (take m body) (omega (arith, lh))
      ∙ (let z : 32 - length head ≡ zero = omega (arith, lh) in rw z) in
    let t1 : ltb (length file) 32 ≡ false = ground (arith, la, lh) in
    let r0 = get_range-of-suffix file head (take m body) 0 (omega arith) refl in
    let r1 : get_range file 0 32 ≡ some head = rw lh at r0 in
    rw (cut, t1, r1)
      (ground (
        arith,
        decode-encode_wal_header h vh,
        scan_loop-frames x (frames_of ts) m (length file) file h scan_start 32
            (frames_of-IsFrame h.page_size ts vts) (omega (arith, la, lh)) d lt' (omega arith),
        scan_txns (32 + h.page_size) ts m 32 [] (omega arith),
      ))
