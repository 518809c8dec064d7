-- ===== src/Wal/Recovery.antt =====
-- Appends and recovery together: a transaction is in the log whole or not at all, and it is there
-- when the append succeeded.
use embedmind.Prelude.{
  ℕ, ◌+◌, ◌-◌, ◌^◌, ◌≤◌, ◌<◌, ◌≡◌, refl, ap, ◌∙◌, ◌⊎◌, inl, inr, true, Option, none, some, List, [],
  ◌∷◌, ◌++◌, length, take, All, take-append_ge, take-all, arith, leb, if◌then◌else◌, Bool-cases,
}
use embedmind.Error.{Result, ok, err, io, crash}
use embedmind.Effect.{continue, pure, ◌>>=◌}
use embedmind.Bytes.{Bytes}
use embedmind.Format.{Xxh3}
use embedmind.Format.WalFrame.{WalHeader}
use embedmind.Format.WalFrame.Laws.{IsWalHeader}
use embedmind.PageMap.{PageMap}
use embedmind.Vfs
use embedmind.Vfs.{SimState, SimFile}
use embedmind.Vfs.Laws.{sync-cases, find-put_self}
use embedmind.Wal.{scan}
use embedmind.Wal.Frames.{log_bytes, txn_frames}
use embedmind.Wal.Txns.{LogTxn, pages, image_offsets, size_of}
use embedmind.Wal.Durability.{log_file, IsTxn, IsPage, txn_frames-IsFrame, scan-cut, All-append}
use embedmind.Wal.Log.{
  full_index, log_size, last_bytes, committed_within-last, length-txn_bytes, log_file-last,
  length-log_file,
}
use embedmind.Wal.Append.{WalStore, on_sim, start_generation, append_frames, append_txn}
use embedmind.Wal.Atomic.{Holds, IsReady, IsImage, Done, AppendOutcome, append_frames-outcome}

-- What a scan of the log finds, if it is that of the transactions `ts`.
abbrev pub Recovers : Xxh3 → WalHeader → List LogTxn → Bytes → Type 0
Recovers x h ts bs =
    scan x bs
    ≡ ok (
        some
          (record { page_size = h.page_size; committed = full_index (32 + h.page_size) 32 ts [] }))

-- An append of a transaction from the state `s0`: some first bytes of its frames are in the log;
-- if it succeeded, all of them, and the log is ready for the next.
pub record TxnOutcome (a : List (ℕ × ℕ)) (s0 : WalStore) (bs frames : Bytes)
    (r : Result (List (ℕ × ℕ)) × WalStore) : Type 0 where
  pub bytes : ℕ
  pub holds : Holds r.1 (bs ++ take bytes frames)
  pub result :
      ((r.0 ≡ ok a) × (length frames ≤ bytes) × Done s0 r.1 bs frames) ⊎ (r.0 ≡ err (io crash))

abbrev sync_log : List (ℕ × ℕ) → WalStore → Result (List (ℕ × ℕ)) × WalStore
sync_log offsets = (λ (s : WalStore). on_sim (Vfs.sync s.wal.file) s) >>= (λ _. pure offsets)

sync_log-outcome :
    (a : List (ℕ × ℕ)) (s0 s : WalStore) (bs frames : Bytes)
    → Done s0 s bs frames
    → TxnOutcome a s0 bs frames (sync_log a s)
sync_log-outcome a s0 s bs frames done =
    let r = done.ready in
    let whole : take (length frames) frames ≡ frames =
      take-all (length frames) frames (omega arith) in
    let (sim', res, fs) = sync-cases s.wal.file s.sim r.holds.d r.no_tear r.holds.found in
    let kept : Holds (record s { sim = sim' }) (bs ++ frames) = elim fs [
      | inl same ↦ record {
        d = r.holds.d;
        found = rw same r.holds.found;
        content = r.holds.content;
      }
      | inr now ↦ record {
        d = record r.holds.d { synced = r.holds.d.current };
        found = rw now (
            find-put_self s.wal.file.path (record r.holds.d { synced = r.holds.d.current })
              s.sim.files);
        content = r.holds.content;
      }
    ] in
    elim res [
      | inl (e, armed) ↦ rw e (record {
        bytes = length frames;
        holds = rw whole kept;
        result = inl (
          refl,
          omega arith,
          record {
            ready = record { holds = kept; len = r.len; no_tear = rw armed r.no_tear };
            salt = done.salt;
            page_size = done.page_size;
            file = done.file;
          },
        );
      })
      | inr e ↦ rw e (record { bytes = length frames; holds = rw whole kept; result = inr refl })
    ]

after_frames :
    (a : List (ℕ × ℕ)) (s0 : WalStore) (bs frames : Bytes) (r : Result (List (ℕ × ℕ)) × WalStore)
    → AppendOutcome a s0 bs frames r
    → TxnOutcome a s0 bs frames (continue r.0 sync_log r.1)
after_frames a s0 bs frames r (inl (e, done)) = rw e (sync_log-outcome a s0 r.1 bs frames done)
after_frames a s0 bs frames r (inr (e, cut)) =
    rw e (record { bytes = cut.bytes; holds = cut.holds; result = inr refl })

start_generation-some :
    (o : Option ℕ) (salt fresh : ℕ) (s : WalStore)
    → o ≡ some salt
    → start_generation o fresh s ≡ (ok salt, s)
unfolding start_generation
start_generation-some none salt fresh s e = cc
start_generation-some (some k) salt fresh s e = cc

append_txn-outcome :
    (x : Xxh3) (salt fresh txn_id page_size : ℕ) (ps : List (ℕ × Bytes)) (s : WalStore) (bs : Bytes)
    → IsReady s bs
    → s.wal.salt ≡ some salt
    → s.wal.page_size ≡ page_size
    → All (IsImage page_size) ps
    → TxnOutcome
        (image_offsets (32 + page_size) (length bs) ps)
        s
        bs
        (log_bytes x salt (txn_frames txn_id ps))
        (append_txn x fresh txn_id ps s)
unfolding append_txn
append_txn-outcome x salt fresh txn_id page_size ps s bs r es ep im =
    rw (start_generation-some s.wal.salt salt fresh s es) (
      after_frames _ s bs _ (append_frames x salt txn_id ps s)
        (append_frames-outcome x salt txn_id page_size ps s bs r ep im))

images :
    (page_size : ℕ) (ps : List (ℕ × Bytes)) → All (IsPage page_size) ps → All (IsImage page_size) ps
images page_size [] v = tt
images page_size (p ∷ ps) (v, vs) = (v.1, images page_size ps vs)

module _ (x : Xxh3) (h : WalHeader) (ts : List LogTxn) (t : LogTxn) (vh : IsWalHeader h)
    (vts : All (IsTxn h.page_size) ts) (vt : IsTxn h.page_size t)
    (fits : length (log_file x h (ts ++ t ∷ [])) < 2 ^ 64) where
  all : All (IsTxn h.page_size) (ts ++ t ∷ [])
  all = All-append (IsTxn h.page_size) ts (t ∷ []) vts (vt, tt)

  -- The log with `n` bytes of the last transaction behind it.
  cut-scan :
      (n : ℕ)
      → scan x (log_file x h ts ++ take n (last_bytes x h t))
        ≡ ok (
            some (record {
              page_size = h.page_size;
              committed =
                  (if leb (size_of (32 + h.page_size) (pages t)) n
                    then full_index (32 + h.page_size) 32 (ts ++ t ∷ []) []
                    else full_index (32 + h.page_size) 32 ts []);
            }))
  cut-scan n =
      let old = log_file x h ts in
      let frame_len = 32 + h.page_size in
      let size = log_size frame_len ts in
      let lo = length-log_file x h ts vts in
      let e : take (32 + (size + n)) (log_file x h (ts ++ t ∷ []))
          ≡ old ++ take n (last_bytes x h t) =
        rw (log_file-last x h ts t) (
          take-append_ge (32 + (size + n)) old (last_bytes x h t) (omega (arith, lo))
          ∙ (let z : 32 + (size + n) - length old ≡ n = omega (arith, lo) in rw z)) in
      rw (← e) (
        scan-cut x h (ts ++ t ∷ []) (size + n) vh all fits
        ∙ ap (λ (c : PageMap ℕ). ok (some (record { page_size = h.page_size; committed = c })))
            (committed_within-last frame_len ts t n (size + n) 32 [] refl))

  -- Appends are atomic. The log file holds exactly well-formed transactions of the
  -- current generation, the new transaction is well-formed, the log with it is shorter than 2^64
  -- bytes, and no torn write is armed. Then, whatever operation an armed crash fires before, a
  -- scan of the file that the append leaves finds either the old transactions or these and the new
  -- one; and if the append succeeded it returns the offsets of the images, the scan finds the new
  -- one, and the log is ready for the next append.
  pub append_txn-atomic :
      (fresh : ℕ) (s : WalStore)
      → IsReady s (log_file x h ts)
      → s.wal.salt ≡ some h.salt
      → s.wal.page_size ≡ h.page_size
      → (bs : Bytes) × Holds (append_txn x fresh t.txn_id (pages t) s).1 bs
        × ((((append_txn x fresh t.txn_id (pages t) s).0
                ≡ ok (image_offsets (32 + h.page_size) (length (log_file x h ts)) (pages t)))
              × Recovers x h (ts ++ t ∷ []) bs
              × Done s
                  (append_txn x fresh t.txn_id (pages t) s).1
                  (log_file x h ts)
                  (last_bytes x h t))
            ⊎ (((append_txn x fresh t.txn_id (pages t) s).0 ≡ err (io crash))
                × (Recovers x h (ts ++ t ∷ []) bs ⊎ Recovers x h ts bs)))
  append_txn-atomic fresh s r es ep =
      let o =
        append_txn-outcome x h.salt fresh t.txn_id h.page_size (pages t) s (log_file x h ts) r es ep
          (images h.page_size (pages t) vt.pages_ok) in
      let scanned = cut-scan o.bytes in
      let len =
        length-txn_bytes x h.salt h.page_size t.txn_id (pages t)
          (txn_frames-IsFrame h.page_size t.txn_id (pages t) vt.txn_id_lt vt.pages_ok) in
      (
        log_file x h ts ++ take o.bytes (last_bytes x h t),
        o.holds,
        elim o.result [
          | inl (e, all_in, done) ↦
              let w : leb (size_of (32 + h.page_size) (pages t)) o.bytes ≡ true = ground arith in
              inl (e, rw w at scanned, done)
          | inr e ↦ inr (
            e,
            elim (Bool-cases (leb (size_of (32 + h.page_size) (pages t)) o.bytes)) [
              | inl w ↦ inl (rw w at scanned)
              | inr w ↦ inr (rw w at scanned)
            ],
          )
        ],
      )
