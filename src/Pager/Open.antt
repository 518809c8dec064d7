-- ===== src/Pager/Open.antt =====
-- crates/embedmind-core/src/storage/pager.rs: `create`, `open` with recovery, and `close`.
use embedmind.Prelude.{
  ℕ, Bool, true, false, ◌||◌, not, Option, none, some, [], ◌∷◌, ◌++◌, replicate, leb, ltb, ◌==◌,
  if◌then◌else◌,
}
use embedmind.Error.{Result, ok, err, invalid_argument, write_locked, bad_header}
use embedmind.Effect.{Exec, pure, require, lift, ◌>>=◌, ◌>>◌}
use embedmind.Format.{Xxh3, header_peek_len}
use embedmind.Format as F
use embedmind.Format.Header
use embedmind.Format.Header.{Header}
use embedmind.PageMap.{PageMap}
use embedmind.Vfs
use embedmind.Vfs.{SimState, SimFile, must_exist, create_new, open_or_create}
use embedmind.Vfs.Files.{FilePath}
use embedmind.Wal
use embedmind.Wal.{RecoveredWal}
use embedmind.Wal.Append
use embedmind.Pager.{Pager, PagerOptions, Store, page_offset, checkpoint}

-- b"-wal" behind the path.
abbrev pub wal_path_for : FilePath → FilePath
wal_path_for path = path ++ (b'-' ∷ b'w' ∷ b'a' ∷ b'l' ∷ [])

-- On an error the handle goes out of scope, which releases its lock.
dropping : {A : Type 0} → SimFile → Exec SimState A → Exec SimState A
dropping f m s = done (m s).0 (m s).1
  where
    done : {A : Type 0} → Result A → SimState → Result A × SimState
    done (ok a) s' = (ok a, s')
    done (err e) s' = (err e, Vfs.drop_handle f s')

abbrev pager_of : SimFile → SimFile → FilePath → Header → ℕ → Pager
pager_of main wal_file wal_path header threshold = record {
  main = main;
  wal = Append.new wal_file header.page_size;
  wal_path = wal_path;
  header = header;
  wal_index = [];
  checkpoint_threshold = threshold;
  broken = false;
}

-- An orphan log of a deleted store is deleted.
delete_orphan : FilePath → Exec SimState (Unit {0})
delete_orphan wal_path s = if Vfs.exists wal_path s then Vfs.delete wal_path s else (ok tt, s)

create_locked : Xxh3 → SimFile → FilePath → PagerOptions → Header → Exec SimState Pager
unfolding delete_orphan
create_locked x main path opts header = do
  locked ← Vfs.try_lock_exclusive main
  require locked write_locked
  delete_orphan (wal_path_for path)
  page0 ← lift (Header.encode x header (replicate opts.page_size 0))
  Vfs.write_at main page0 0
  Vfs.sync main
  wal_file ← Vfs.open_file (wal_path_for path) open_or_create
  pure (pager_of main wal_file (wal_path_for path) header opts.checkpoint_threshold)

-- `Pager::create`
unfoldable pub create : Xxh3 → FilePath → PagerOptions → Exec SimState Pager
unfolding create_locked dropping
create x path opts = do
  require (not (opts.format_version == 0 || ltb F.format_version opts.format_version))
      (invalid_argument "format_version must be between 1 and FORMAT_VERSION")
  fresh ← lift (Header.new opts.page_size)
  main ← Vfs.open_file path create_new
  dropping main
      (create_locked x main path opts (record fresh { format_version = opts.format_version }))

-- `Header::peek_page_size(..).ok()`
peeked : Result ℕ → Option ℕ
peeked (ok page_size) = some page_size
peeked (err e) = none

unfoldable pub peek_main_page_size : SimFile → Exec SimState (Option ℕ)
unfolding peeked
peek_main_page_size main = do
  n ← Vfs.len main
  if ltb n header_peek_len then pure none else do
    prefix ← Vfs.read_at main 0 header_peek_len
    pure (peeked (Header.peek_page_size prefix))

unfoldable pub read_header : Xxh3 → SimFile → Exec SimState Header
read_header x main = do
  n ← Vfs.len main
  require (leb header_peek_len n) bad_header
  prefix ← Vfs.read_at main 0 header_peek_len
  page_size ← lift (Header.peek_page_size prefix)
  m ← Vfs.len main
  require (leb page_size m) bad_header
  page0 ← Vfs.read_at main 0 page_size
  lift (Header.decode x page0)

-- `wal::scan` of the open log: its reads are of a file that nothing changes meanwhile.
unfoldable pub scan_file : Xxh3 → SimFile → Exec SimState (Option RecoveredWal)
scan_file x wal_file = do Vfs.check_alive; d ← Vfs.data_of wal_file; lift (Wal.scan x d.current)

-- The committed images are copied from the log to the main file.
unfoldable pub apply_images : SimFile → SimFile → ℕ → PageMap ℕ → Exec SimState (Unit {0})
unfolding page_offset
apply_images main wal_file page_size [] = pure tt
apply_images main wal_file page_size ((page_no, offset) ∷ rest) = do
  image ← Vfs.read_at wal_file offset page_size
  target ← lift (page_offset page_no page_size)
  Vfs.write_at main image target
  apply_images main wal_file page_size rest

-- `expected.is_none_or(|ps| ps == page_size)`
fits_main : Option ℕ → ℕ → Bool
fits_main none page_size = true
fits_main (some ps) page_size = ps == page_size

apply_committed : SimFile → SimFile → ℕ → PageMap ℕ → Bool → Exec SimState (Unit {0})
apply_committed main wal_file page_size [] fits = pure tt
apply_committed main wal_file page_size (c ∷ cs) false = pure tt
apply_committed main wal_file page_size (c ∷ cs) true = do
  apply_images main wal_file page_size (c ∷ cs)
  Vfs.sync main

unfoldable pub recover : SimFile → SimFile → Option RecoveredWal → Exec SimState (Unit {0})
unfolding apply_images apply_committed fits_main peek_main_page_size
recover main wal_file none = pure tt
recover main wal_file (some r) = do
  expected ← peek_main_page_size main
  apply_committed main wal_file r.page_size r.committed (fits_main expected r.page_size)

-- A log with content is emptied.
unfoldable pub empty_log : SimFile → Exec SimState (Unit {0})
empty_log wal_file = do
  n ← Vfs.len wal_file
  if ltb 0 n then (do Vfs.truncate wal_file 0; Vfs.sync wal_file) else pure tt

open_locked : Xxh3 → SimFile → FilePath → PagerOptions → Exec SimState Pager
unfolding scan_file recover empty_log read_header
open_locked x main path opts = do
  locked ← Vfs.try_lock_exclusive main
  require locked write_locked
  wal_file ← Vfs.open_file (wal_path_for path) open_or_create
  recovered ← scan_file x wal_file
  recover main wal_file recovered
  empty_log wal_file
  header ← read_header x main
  pure (pager_of main wal_file (wal_path_for path) header opts.checkpoint_threshold)

-- `Pager::open`
unfoldable pub open_pager : Xxh3 → FilePath → PagerOptions → Exec SimState Pager
unfolding open_locked dropping
open_pager x path opts = do
  main ← Vfs.open_file path must_exist
  dropping main (open_locked x main path opts)

-- `Pager::close`: the main file's lock is released last, or when the checkpoint fails.
release : {A : Type 0} → Store → Result A × SimState → Result A × SimState
release s (r, sim) = (r, Vfs.drop_handle s.pager.main sim)

delete_log : Result (Unit {0}) → Store → Result (Unit {0}) × SimState
unfolding delete_orphan
delete_log (ok u) s = delete_orphan s.pager.wal_path s.sim
delete_log (err e) s = (err e, s.sim)

unfoldable pub close : Store → Result (Unit {0}) × SimState
unfolding release delete_log
close s = let (r, s') = checkpoint s in release s' (delete_log r s')
