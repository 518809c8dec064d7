-- ===== src/Wal/Log.antt =====
-- The bytes of a log, measured and split at its last transaction.
use embedmind.Prelude.{
  ℕ, ◌+◌, ◌-◌, ◌≡◌, refl, ap, sym, ◌∙◌, true, List, [], ◌∷◌, ◌++◌, length, All, append-nil,
  append_assoc, length-append, arith, leb, if◌then◌else◌,
}
use embedmind.Bytes.{Bytes}
use embedmind.Format.{Xxh3}
use embedmind.Format.WalFrame.{WalHeader, encode_wal_header}
use embedmind.Format.WalFrame.Laws.{length-encode_wal_header}
use embedmind.PageMap.{PageMap, extend}
use embedmind.Wal.Frames.{Frame, log_bytes, txn_frames, frame_bytes}
use embedmind.Wal.Scan.{IsFrame, length-frame_bytes}
use embedmind.Wal.Txns.{LogTxn, pages, image_offsets, size_of, frames_of, committed_within}
use embedmind.Wal.Durability.{log_file, IsTxn, txn_frames-IsFrame}

-- The page index after all transactions of a log.
unfoldable pub full_index : ℕ → ℕ → List LogTxn → PageMap ℕ → PageMap ℕ
full_index frame_len offset [] index = index
full_index frame_len offset (t ∷ ts) index =
    full_index frame_len (offset + size_of frame_len (pages t)) ts
      (extend index (image_offsets frame_len offset (pages t)))

abbrev pub log_size : ℕ → List LogTxn → ℕ
log_size frame_len [] = 0
log_size frame_len (t ∷ ts) = size_of frame_len (pages t) + log_size frame_len ts

-- Of a log that is cut behind its first transactions, `n` bytes into the last one.
pub committed_within-last :
    (frame_len : ℕ) (ts : List LogTxn) (t : LogTxn) (n m offset : ℕ) (index : PageMap ℕ)
    → m ≡ log_size frame_len ts + n
    → committed_within frame_len m offset (ts ++ t ∷ []) index ≡ (
        if leb (size_of frame_len (pages t)) n
        then full_index frame_len offset (ts ++ t ∷ []) index
        else full_index frame_len offset ts index)
unfolding committed_within full_index
committed_within-last frame_len [] t n m offset index e = let e' : m ≡ n = omega arith in rw e'
committed_within-last frame_len (u ∷ ts) t n m offset index e =
    let size : ℕ = size_of frame_len (pages u) in
    let whole : leb size m ≡ true = ground arith in
    rw whole (
      committed_within-last frame_len ts t n (m - size) (offset + size)
        (extend index (image_offsets frame_len offset (pages u))) (omega arith))

log_bytes-append :
    (x : Xxh3) (salt : ℕ) (fs gs : List Frame)
    → log_bytes x salt (fs ++ gs) ≡ log_bytes x salt fs ++ log_bytes x salt gs
unfolding log_bytes
log_bytes-append x salt [] gs = refl
log_bytes-append x salt (f ∷ fs) gs =
    ap (λ (t : Bytes). frame_bytes x salt f ++ t) (log_bytes-append x salt fs gs)
    ∙ sym (append_assoc (frame_bytes x salt f) (log_bytes x salt fs) (log_bytes x salt gs))

frames_of-last :
    (ts : List LogTxn) (t : LogTxn)
    → frames_of (ts ++ t ∷ []) ≡ frames_of ts ++ txn_frames t.txn_id (pages t)
frames_of-last [] t = append-nil (txn_frames t.txn_id (pages t))
frames_of-last (u ∷ ts) t =
    ap (λ (fs : List Frame). txn_frames u.txn_id (pages u) ++ fs) (frames_of-last ts t)
    ∙ sym (append_assoc (txn_frames u.txn_id (pages u)) (frames_of ts) _)

pub length-txn_bytes :
    (x : Xxh3) (salt page_size txn_id : ℕ) (ps : List (ℕ × Bytes))
    → All (IsFrame page_size) (txn_frames txn_id ps)
    → length (log_bytes x salt (txn_frames txn_id ps)) ≡ size_of (32 + page_size) ps
unfolding log_bytes txn_frames size_of
length-txn_bytes x salt page_size txn_id [] v = refl
length-txn_bytes x salt page_size txn_id (p ∷ ps) (v, vs) =
    length-append _ (log_bytes x salt (txn_frames txn_id ps))
    ∙ rw (length-frame_bytes x salt page_size _ v, length-txn_bytes x salt page_size txn_id ps vs)

length-log_bytes :
    (x : Xxh3) (salt page_size : ℕ) (ts : List LogTxn)
    → All (IsTxn page_size) ts
    → length (log_bytes x salt (frames_of ts)) ≡ log_size (32 + page_size) ts
length-log_bytes x salt page_size [] v = unfold log_bytes in refl
length-log_bytes x salt page_size (t ∷ ts) (v, vs) =
    ap (λ (b : Bytes). length b)
      (log_bytes-append x salt (txn_frames t.txn_id (pages t)) (frames_of ts))
    ∙ length-append (log_bytes x salt (txn_frames t.txn_id (pages t))) _
    ∙ rw (
      length-txn_bytes x salt page_size t.txn_id (pages t)
          (txn_frames-IsFrame page_size t.txn_id (pages t) v.txn_id_lt v.pages_ok),
      length-log_bytes x salt page_size ts vs,
    )

abbrev pub last_bytes : Xxh3 → WalHeader → LogTxn → Bytes
last_bytes x h t = log_bytes x h.salt (txn_frames t.txn_id (pages t))

pub log_file-last :
    (x : Xxh3) (h : WalHeader) (ts : List LogTxn) (t : LogTxn)
    → log_file x h (ts ++ t ∷ []) ≡ log_file x h ts ++ last_bytes x h t
unfolding log_file
log_file-last x h ts t =
    rw (frames_of-last ts t, log_bytes-append x h.salt (frames_of ts) _)
      (sym
        (append_assoc (encode_wal_header h) (log_bytes x h.salt (frames_of ts)) (last_bytes x h t)))

pub length-log_file :
    (x : Xxh3) (h : WalHeader) (ts : List LogTxn)
    → All (IsTxn h.page_size) ts
    → length (log_file x h ts) ≡ 32 + log_size (32 + h.page_size) ts
unfolding log_file
length-log_file x h ts v =
    length-append (encode_wal_header h) _
    ∙ rw (length-encode_wal_header h, length-log_bytes x h.salt h.page_size ts v)
