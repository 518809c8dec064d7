-- ===== src/Wal/Scan.antt =====
-- The scan's loop, over the bytes of a log that is cut anywhere, is the scan of its whole frames.
use embedmind.Prelude.{
  ℕ, zero, suc, ◌+◌, ◌-◌, ◌^◌, ◌≤◌, ◌<◌, ◌≡◌, ap, sym, ◌∙◌, inl, inr, false, some, List, [], ◌∷◌,
  ◌++◌, length, take, drop, All, append_assoc, length-append, length-take, length-drop,
  take-append_ge, take-append_le, take-all, drop-append_ge, drop-drop, arith, leb, ltb,
  if◌then◌else◌, Bool-cases,
}
use embedmind.Error.{ok}
use embedmind.Bytes.{Bytes, get_range}
use embedmind.Format.{Xxh3}
use embedmind.Format.WalFrame.{WalHeader, encode_frame}
use embedmind.Format.WalFrame.Laws.{IsFrameHeader, length-encode_frame, decode-encode_frame}
use embedmind.Wal.{ScanState, take_frame, interleaved, read_at, scan_loop}
use embedmind.Wal.Frames.{Frame, frame_bytes, log_bytes, whole_frames, scan_frames}

-- A frame whose fields fit and whose image is one page.
pub record IsFrame (page_size : ℕ) (f : Frame) : Type 0 where
  pub header : IsFrameHeader f.header
  pub image : length f.image ≡ page_size

pub length-frame_bytes :
    (x : Xxh3) (salt page_size : ℕ) (f : Frame)
    → IsFrame page_size f
    → length (frame_bytes x salt f) ≡ 32 + page_size
unfolding frame_bytes
length-frame_bytes x salt page_size f v = omega (
  arith,
  length-append (encode_frame x f.header f.image salt) f.image,
  length-encode_frame x f.header f.image salt,
  v.image,
)

-- What stands at `offset` in a file, and how long the file is then.
length-of-suffix :
    (file r : Bytes) (offset : ℕ)
    → offset ≤ length file
    → drop offset file ≡ r
    → length file ≡ offset + length r
length-of-suffix file r offset le e =
    omega (arith, length-drop offset file, ap (λ (t : Bytes). length t) e, le)

pub get_range-of-suffix :
    (file a b : Bytes) (offset : ℕ)
    → offset ≤ length file
    → drop offset file ≡ a ++ b
    → get_range file offset (length a) ≡ some a
unfolding get_range
get_range-of-suffix file a b offset le e =
    let len = length-of-suffix file (a ++ b) offset le e in
    let cut : take (length a) (a ++ b) ≡ a =
      take-append_le (length a) a b (omega arith) ∙ take-all (length a) a (omega arith) in
    ground (arith, e, cut, len, length-append a b)

drop-of-suffix :
    (file a b : Bytes) (offset n : ℕ)
    → length a ≡ n
    → drop offset file ≡ a ++ b
    → drop (offset + n) file ≡ b
drop-of-suffix file a b offset n len e =
    sym (drop-drop n offset file)
    ∙ ap (λ (t : Bytes). drop n t) e
    ∙ drop-append_ge n a b (omega arith)
    ∙ (let z : n - length a ≡ zero = omega arith in rw z)

-- One round on a whole frame.
scan_loop-frame :
    (x : Xxh3) (f : Frame) (fuel : ℕ) (file b : Bytes) (h : WalHeader) (s : ScanState) (offset : ℕ)
    → IsFrame h.page_size f
    → offset ≤ length file
    → drop offset file ≡ frame_bytes x h.salt f ++ b
    → length file < 2 ^ 64
    → scan_loop x (suc fuel) file h s offset ≡ (
        if interleaved s.pending_txn f.header.txn_id
        then ok s.committed
        else scan_loop x fuel file h
            (take_frame s f.header (offset + 32))
            (offset + (32 + h.page_size)))
unfolding scan_loop read_at frame_bytes
scan_loop-frame x f fuel file b h s offset v le e lt =
    let enc = encode_frame x f.header f.image h.salt in
    let e' : drop offset file ≡ enc ++ (f.image ++ b) = e ∙ append_assoc enc f.image b in
    let l1 = length-encode_frame x f.header f.image h.salt in
    let len = length-of-suffix file (enc ++ (f.image ++ b)) offset le e' in
    let la = length-append enc (f.image ++ b) in
    let lb = length-append f.image b in
    let r1 : get_range file offset 32 ≡ some enc =
      rw l1 at (get_range-of-suffix file enc (f.image ++ b) offset le e') in
    let d : drop (offset + 32) file ≡ f.image ++ b =
      drop-of-suffix file enc (f.image ++ b) offset 32 l1 e' in
    let r2 : get_range file (offset + 32) h.page_size ≡ some f.image =
      rw v.image at
        (get_range-of-suffix file f.image b (offset + 32) (omega (arith, l1, len, la)) d) in
    let t1 : leb (2 ^ 64) (offset + (32 + h.page_size)) ≡ false =
      ground (arith, len, la, lb, l1, v.image) in
    let t2 : ltb (length file) (offset + (32 + h.page_size)) ≡ false =
      ground (arith, len, la, lb, l1, v.image) in
    rw (t1, t2, r1, r2) (ground (arith, decode-encode_frame x f.header f.image h.salt v.header))

-- A round that finds less than a frame stops.
scan_loop-end :
    (x : Xxh3) (fuel : ℕ) (file : Bytes) (h : WalHeader) (s : ScanState) (offset : ℕ)
    → length file < offset + (32 + h.page_size)
    → scan_loop x (suc fuel) file h s offset ≡ ok s.committed
unfolding scan_loop
scan_loop-end x fuel file h s offset lt = ground arith

-- From any offset where a log stands that is cut after `m` bytes, with fuel for what is left, the
-- loop ends, and finds what the scan of the log's whole frames finds.
pub scan_loop-frames :
    (x : Xxh3) (fs : List Frame) (m fuel : ℕ) (file : Bytes) (h : WalHeader) (s : ScanState)
    (offset : ℕ)
    → All (IsFrame h.page_size) fs
    → offset ≤ length file
    → drop offset file ≡ take m (log_bytes x h.salt fs)
    → length file < 2 ^ 64
    → length file < fuel + offset
    → scan_loop x fuel file h s offset
      ≡ ok (scan_frames (32 + h.page_size) (whole_frames (32 + h.page_size) m fs) s offset)
unfolding log_bytes whole_frames scan_frames
scan_loop-frames x fs m zero file h s offset v le e lt fu = absurd (omega arith)
scan_loop-frames x [] m (suc fuel) file h s offset v le e lt fu =
    let len = length-of-suffix file _ offset le e in
    scan_loop-end x fuel file h s offset (omega (arith, len, length-take m (log_bytes x h.salt [])))
scan_loop-frames x (f ∷ fs) m (suc fuel) file h s offset (vf, vfs) le e lt fu =
    let n = 32 + h.page_size in
    let fb = frame_bytes x h.salt f in
    let rest = log_bytes x h.salt fs in
    let lf : length fb ≡ n = length-frame_bytes x h.salt h.page_size f vf in
    elim (Bool-cases (leb n m)) [
      | inr short ↦ rw short (
          scan_loop-end x fuel file h s offset
            (ground (arith, length-of-suffix file _ offset le e, length-take m (fb ++ rest))))
      | inl whole ↦
          let nm : n ≤ m = ground arith in
          let cut : take m (fb ++ rest) ≡ fb ++ take (m - n) rest =
            take-append_ge m fb rest (omega (arith, lf)) ∙ rw lf in
          let e' : drop offset file ≡ fb ++ take (m - n) rest = e ∙ cut in
          let len = length-of-suffix file _ offset le e' in
          let la = length-append fb (take (m - n) rest) in
          rw whole (
            ground (
              arith,
              scan_loop-frame x f fuel file (take (m - n) rest) h s offset vf le e' lt,
              scan_loop-frames x fs (m - n) fuel file h (take_frame s f.header (offset + 32))
                  (offset + n) vfs (omega (arith, len, la, lf))
                  (drop-of-suffix file fb (take (m - n) rest) offset n lf e') lt (omega arith),
            ))
    ]
