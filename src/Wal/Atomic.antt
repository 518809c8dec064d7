-- ===== src/Wal/Atomic.antt =====
-- What an append leaves in the log file when it succeeds, and when a crash ends it at any
-- operation: the old log and some first bytes of the transaction's frames.
use embedmind.Prelude.{
  ℕ, ◌+◌, ◌-◌, ◌≡◌, refl, ap, sym, ◌∙◌, ◌⊎◌, inl, inr, true, some, List, [], ◌∷◌, ◌++◌, length,
  take, All, append-nil, append_assoc, length-append, take-append_ge, arith, ◌==◌,
}
use embedmind.Error.{Result, ok, err, io, crash}
use embedmind.Effect.{continue, pure, ◌>>=◌}
use embedmind.Bytes.{Bytes}
use embedmind.Format.{Xxh3}
use embedmind.Format.WalFrame.{encode_frame}
use embedmind.Format.WalFrame.Laws.{length-encode_frame}
use embedmind.Vfs.Files.{SimFileData, find, put}
use embedmind.Vfs.Laws.{NoTear, appended, write_at-end, find-put_self}
use embedmind.Wal.Frames.{Frame, is_last, frame_bytes, log_bytes, txn_frames}
use embedmind.Wal.Txns.{image_offsets}
use embedmind.Wal.Append.{WalStore, append_frames}

-- The log file holds exactly `bs`.
pub record Holds (s : WalStore) (bs : Bytes) : Type 0 where
  pub d : SimFileData
  pub found : find s.wal.file.path s.sim.files ≡ some d
  pub content : d.current ≡ bs

-- The log is ready for an append: it holds `bs`, knows its length, and no write will be torn.
pub record IsReady (s : WalStore) (bs : Bytes) : Type 0 where
  pub holds : Holds s bs
  pub len : s.wal.len ≡ length bs
  pub no_tear : NoTear s.sim.crash_at

abbrev pub IsImage : ℕ → ℕ × Bytes → Type 0
IsImage page_size p = length p.1 ≡ page_size

-- All frames are in the file, and the offsets of the images come back.
pub record Done (s s' : WalStore) (bs frames : Bytes) : Type 0 where
  pub ready : IsReady s' (bs ++ frames)
  pub salt : s'.wal.salt ≡ s.wal.salt
  pub page_size : s'.wal.page_size ≡ s.wal.page_size
  pub file : s'.wal.file ≡ s.wal.file

-- A crash: some first bytes of the frames are in the file.
pub record Cut (s' : WalStore) (bs frames : Bytes) : Type 0 where
  pub bytes : ℕ
  pub holds : Holds s' (bs ++ take bytes frames)

abbrev pub AppendOutcome :
    {A : Type 0} → A → WalStore → Bytes → Bytes → Result A × WalStore → Type 0
AppendOutcome a s bs frames r =
    ((r.0 ≡ ok a) × Done s r.1 bs frames) ⊎ ((r.0 ≡ err (io crash)) × Cut r.1 bs frames)

-- The state after one frame was written.
abbrev pushed : WalStore → SimFileData → Bytes → WalStore
pushed s d frame = record {
  wal = record s.wal { len = s.wal.len + length frame };
  sim = record s.sim {
    files = put s.wal.file.path (appended d frame) s.sim.files;
    ops = s.sim.ops + 1;
  };
}

pushed-IsReady :
    (s : WalStore) (bs frame : Bytes) (r : IsReady s bs)
    → IsReady (pushed s r.holds.d frame) (bs ++ frame)
pushed-IsReady s bs frame r = record {
  holds = record {
    d = appended r.holds.d frame;
    found = find-put_self s.wal.file.path (appended r.holds.d frame) s.sim.files;
    content = ap (λ (c : Bytes). c ++ frame) r.holds.content;
  };
  len = omega (arith, r.len, length-append bs frame);
  no_tear = r.no_tear;
}

abbrev frame_of : ℕ → ℕ × Bytes → List (ℕ × Bytes) → Frame
frame_of txn_id p ps = record {
  header = record { page_no = p.0; txn_id = txn_id; commit = is_last ps };
  image = p.1;
}

-- The first frame is written, and the loop goes on behind it; or the crash fires.
append_frames-first :
    (x : Xxh3) (salt txn_id : ℕ) (p : ℕ × Bytes) (ps : List (ℕ × Bytes)) (s : WalStore) (bs : Bytes)
    (r : IsReady s bs)
    → length p.1 ≡ s.wal.page_size
    → (append_frames x salt txn_id (p ∷ ps) s
        ≡ (append_frames x salt txn_id ps >>= λ offsets. pure ((p.0, s.wal.len + 32) ∷ offsets))
            (pushed s r.holds.d (frame_bytes x salt (frame_of txn_id p ps))))
      ⊎ ((s' : WalStore) × (append_frames x salt txn_id (p ∷ ps) s ≡ (err (io crash), s'))
          × Holds s' bs)
unfolding append_frames frame_bytes
append_frames-first x salt txn_id p ps s bs r im =
    let frame = encode_frame x (frame_of txn_id p ps).header p.1 salt ++ p.1 in
    let t : (length p.1 == s.wal.page_size) ≡ true = ground arith in
    let at_end : s.wal.len ≡ length r.holds.d.current =
      r.len ∙ ap (λ (c : Bytes). length c) (sym r.holds.content) in
    elim (write_at-end s.wal.file s.sim r.holds.d frame s.wal.len r.no_tear r.holds.found at_end) [
      | inl w ↦ inl (rw (t, w))
      | inr (sim', w, same) ↦ inr (
        record s { sim = sim' },
        rw (t, w),
        record { d = r.holds.d; found = rw same r.holds.found; content = r.holds.content },
      )
    ]

take-append_past : (xs ys : Bytes) (n : ℕ) → take (length xs + n) (xs ++ ys) ≡ xs ++ take n ys
take-append_past xs ys n =
    let e : length xs + n - length xs ≡ n = omega arith in
    take-append_ge (length xs + n) xs ys (omega arith) ∙ rw e

-- What is left of the loop behind one frame.
outcome_after :
    (a : List (ℕ × ℕ)) (img : ℕ × ℕ) (s : WalStore) (d : SimFileData) (bs frame rest : Bytes)
    (r : Result (List (ℕ × ℕ)) × WalStore)
    → AppendOutcome a (pushed s d frame) (bs ++ frame) rest r
    → AppendOutcome (img ∷ a) s bs (frame ++ rest) (continue r.0 (λ o. pure (img ∷ o)) r.1)
outcome_after a img s d bs frame rest r (inl (e, done)) = rw e (
    inl (
      refl,
      record {
        ready = rw (← append_assoc bs frame rest) done.ready;
        salt = done.salt;
        page_size = done.page_size;
        file = done.file;
      },
    ))
outcome_after a img s d bs frame rest r (inr (e, cut)) = rw e (
    inr (
      refl,
      record {
        bytes = length frame + cut.bytes;
        holds =
            rw
              (take-append_past frame rest cut.bytes, ← append_assoc bs frame (take cut.bytes rest))
              cut.holds;
      },
    ))

length-frame :
    (x : Xxh3) (salt txn_id : ℕ) (p : ℕ × Bytes) (ps : List (ℕ × Bytes))
    → length (frame_bytes x salt (frame_of txn_id p ps)) ≡ 32 + length p.1
unfolding frame_bytes
length-frame x salt txn_id p ps =
    let h = (frame_of txn_id p ps).header in
    omega (arith, length-append (encode_frame x h p.1 salt) p.1, length-encode_frame x h p.1 salt)

-- An append of pages: all frames, or a crash after some first bytes of them.
pub append_frames-outcome :
    (x : Xxh3) (salt txn_id page_size : ℕ) (ps : List (ℕ × Bytes)) (s : WalStore) (bs : Bytes)
    → IsReady s bs
    → s.wal.page_size ≡ page_size
    → All (IsImage page_size) ps
    → AppendOutcome
        (image_offsets (32 + page_size) (length bs) ps)
        s
        bs
        (log_bytes x salt (txn_frames txn_id ps))
        (append_frames x salt txn_id ps s)
unfolding txn_frames log_bytes image_offsets
append_frames-outcome x salt txn_id page_size [] s bs r ep im =
    unfold append_frames in
    inl (refl, record { ready = rw append-nil r; salt = refl; page_size = refl; file = refl })
append_frames-outcome x salt txn_id page_size (p ∷ ps) s bs r ep (im, ims) =
    let frame = frame_bytes x salt (frame_of txn_id p ps) in
    let rest = log_bytes x salt (txn_frames txn_id ps) in
    let ih =
      append_frames-outcome x salt txn_id page_size ps (pushed s r.holds.d frame) (bs ++ frame)
        (pushed-IsReady s bs frame r) ep ims in
    let len : length (bs ++ frame) ≡ s.wal.len + (32 + page_size) =
      length-append bs frame ∙ rw (length-frame x salt txn_id p ps, im, r.len) in
    elim (append_frames-first x salt txn_id p ps s bs r (im ∙ sym ep)) [
      | inl e ↦
          rw (e, ← r.len)
            (outcome_after _ (p.0, s.wal.len + 32) s r.holds.d bs frame rest _ (rw len at ih))
      | inr (s', e, h) ↦ rw e (inr (refl, record { bytes = 0; holds = rw append-nil h }))
    ]
