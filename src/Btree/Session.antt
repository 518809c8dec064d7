-- ===== src/Btree/Session.antt =====
-- crates/embedmind-core/src/storage/pager.rs, `Txn`: the pages of a transaction beside its pager, as
-- the tree of crates/embedmind-core/src/storage/btree.rs uses them.
use embedmind.Prelude.{
  ℕ, ◌+◌, ◌^◌, ◌≤◌, ◌<◌, ◌≡◌, ◌≢◌, inl, inr, refl, ap, ◌∙◌, true, false, Option-cases, Option, none,
  some, length, replicate, ltb, leb, ◌==◌, arith,
}
use embedmind.Error.{
  Result, ok, err, ok_or, io, unexpected_eof, crash, failed_state, corrupt_page, page_out_of_bounds,
}
use embedmind.Effect.{
  Exec, pure, require, lift, ◌>>=◌, ◌>>◌, bind_keeps, require_keeps, either_keeps,
}
use embedmind.Bytes.{Bytes, get_range}
use embedmind.Format.{Xxh3, page_checksum_is_valid, stamp_page_checksum}
use embedmind.Format.Checksum.{length-stamp, get_range-stamp}
use embedmind.PageMap.{lookup, insert, lookup-insert}
use embedmind.Pager
use embedmind.Pager.{Store, on_sim, with_wal, wal_of}
use embedmind.Vfs
use embedmind.Vfs.{SimFile, SimState}
use embedmind.Wal.Append
use embedmind.Wal.Append.{WalStore}
use embedmind.Pager.Txn
use embedmind.Pager.Txn.{Txn, own_or_committed}
use embedmind.Btree.Insert.{TxnPages}
use embedmind.Btree.Chains.{IsTxn}

pub record Session : Type 0 where
  pub txn : Txn
  pub store : Store

unfoldable pub txn_pages : Xxh3 → ℕ → TxnPages Session
txn_pages x page_size = record {
  read_page = λ p s. let r = Txn.read_page x s.txn p s.store in (r.0, record s { store = r.1 });
  allocate_page = λ s. let r = Txn.allocate_page x page_size s.txn in (r.0, record s { txn = r.1 });
  write_page =
      λ p b s. let r = Txn.write_page x page_size p b s.txn in (r.0, record s { txn = r.1 });
  root_btree_page = λ s. Txn.root_btree_page s.store.pager.header s.txn;
  set_root_btree_page = λ p s. record s { txn = Txn.set_root_btree_page p s.txn };
  page_size = page_size;
}

-- What a transaction shows of a page.
abbrev pub shown : Xxh3 → Session → ℕ → Result Bytes
shown x s p = (Txn.read_page x s.txn p s.store).0

abbrev pub count : Session → ℕ
count s = s.txn.page_count

-- Reads change neither the pager nor the files.
read_at-keeps : (f : SimFile) (offset n : ℕ) (s : SimState) → (Vfs.read_at f offset n s).1 ≡ s
unfolding Vfs.read_at Vfs.check_alive Vfs.data_of
read_at-keeps f offset n s =
    bind_keeps Vfs.check_alive
      (λ u. Vfs.data_of f >>= λ d. lift (ok_or (get_range d.current offset n) (io unexpected_eof)))
      s (either_keeps s.crashed (err (io crash)) (ok tt) s)
      (λ u.
        bind_keeps (Vfs.data_of f)
          (λ d. lift (ok_or (get_range d.current offset n) (io unexpected_eof))) s refl (λ d. refl))

logged-keeps : (offset n : ℕ) (s : WalStore) → (Append.read_image offset n s).1 ≡ s
unfolding Append.read_image
logged-keeps offset n s =
    ap (λ (m : SimState). record s { sim = m }) (read_at-keeps s.wal.file offset n s.sim)

image-keeps : (at : Option ℕ) (p : ℕ) (s : Store) → (Pager.read_image at p s).1 ≡ s
unfolding Pager.read_image Pager.page_offset
image-keeps (some offset) p s =
    ap (λ w. with_wal s w) (logged-keeps offset s.pager.header.page_size (wal_of s))
image-keeps none p s =
    bind_keeps (lift (Pager.page_offset p s.pager.header.page_size))
      (λ o. on_sim (Vfs.read_at s.pager.main o s.pager.header.page_size)) s refl
      (λ o.
        ap (λ (m : SimState). record s { sim = m })
          (read_at-keeps s.pager.main o s.pager.header.page_size s.sim))

committed-keeps : (x : Xxh3) (p : ℕ) (s : Store) → (Pager.read_page x p s).1 ≡ s
unfolding Pager.read_page Pager.ensure_usable
committed-keeps x p s =
    let checked : Bytes → Exec Store Bytes =
      λ page. require (page_checksum_is_valid x page) (corrupt_page p) >> pure page in
    let inside : Pager.Pager → Exec Store (Unit {0}) =
      λ g. require (ltb p g.header.page_count) (page_out_of_bounds p g.header.page_count) in
    let from_pager : Pager.Pager → Exec Store Bytes =
      λ g. inside g >> (Pager.read_image (lookup p g.wal_index) p >>= checked) in
    bind_keeps Pager.ensure_usable (λ u. Pager.the_pager >>= from_pager) s
      (either_keeps s.pager.broken (err (io failed_state)) (ok tt) s)
      (λ u.
        bind_keeps (inside s.pager)
          (λ u'. Pager.read_image (lookup p s.pager.wal_index) p >>= checked) s
          (require_keeps (ltb p s.pager.header.page_count)
            (page_out_of_bounds p s.pager.header.page_count) s)
          (λ u'.
            bind_keeps (Pager.read_image (lookup p s.pager.wal_index) p) checked s
              (image-keeps (lookup p s.pager.wal_index) p s)
              (λ page.
                bind_keeps (require (page_checksum_is_valid x page) (corrupt_page p))
                  (λ u''. pure page) s
                  (require_keeps (page_checksum_is_valid x page) (corrupt_page p) s)
                  (λ u''. refl))))

pub read_page-keeps : (x : Xxh3) (t : Txn) (p : ℕ) (s : Store) → (Txn.read_page x t p s).1 ≡ s
unfolding Txn.read_page own_or_committed
read_page-keeps x t p s = elim (Option-cases (lookup p t.dirty)) [
  | inr (page, own) ↦ rw own refl
  | inl other ↦ rw other (
      bind_keeps (require (ltb p t.page_count) (page_out_of_bounds p t.page_count))
        (λ u. Pager.read_page x p) s
        (require_keeps (ltb p t.page_count) (page_out_of_bounds p t.page_count) s)
        (λ u. committed-keeps x p s))
]

written : (x : Xxh3) (p : ℕ) (b : Bytes) (t : Txn) → Txn
written x p b t = record t { dirty = insert p (stamp_page_checksum x b) t.dirty }

write_accepted :
    (x : Xxh3) (page_size p : ℕ) (b : Bytes) (t : Txn)
    → length b ≡ page_size
    → 0 < p
    → p < t.page_count
    → Txn.write_page x page_size p b t ≡ (ok tt, written x p b t)
unfolding Txn.write_page written
write_accepted x page_size p b t size pos inside =
    let one : (length b == page_size) ≡ true = ground arith in
    let real : (p == 0) ≡ false = ground arith in
    let in_range : ltb p t.page_count ≡ true = ground arith in rw (one, real, in_range) refl

-- A page that is not the one that was written is looked up as before.
shown-other :
    (x : Xxh3) (page_size p q : ℕ) (b : Bytes) (s : Session)
    → p ≢ q
    → (Txn.read_page x (Txn.write_page x page_size p b s.txn).1 q s.store).0
      ≡ (Txn.read_page x s.txn q s.store).0
unfolding Txn.write_page Txn.read_page
shown-other x page_size p q b s other =
    ground (arith, lookup-insert s.txn.dirty p (stamp_page_checksum x b) q)

shown-own :
    (x : Xxh3) (page_size p : ℕ) (b : Bytes) (s : Session)
    → length b ≡ page_size
    → 0 < p
    → p < s.txn.page_count
    → (Txn.read_page x (Txn.write_page x page_size p b s.txn).1 p s.store).0
      ≡ ok (stamp_page_checksum x b)
unfolding Txn.read_page written own_or_committed
shown-own x page_size p b s size pos inside =
    let image = stamp_page_checksum x b in
    let same : (p == p) ≡ true = ground arith in
    let found : lookup p (insert p image s.txn.dirty) ≡ some image =
      lookup-insert s.txn.dirty p image p ∙ (rw same refl) in
    rw (write_accepted x page_size p b s.txn size pos inside, found) refl

count_kept :
    (x : Xxh3) (page_size p : ℕ) (b : Bytes) (t : Txn)
    → (Txn.write_page x page_size p b t).1.page_count ≡ t.page_count
unfolding Txn.write_page
count_kept x page_size p b t = ground arith

allocated :
    (x : Xxh3) (page_size : ℕ) (t : Txn)
    → t.page_count + 1 < 2 ^ 64
    → Txn.allocate_page x page_size t ≡ (
      ok t.page_count,
      record t {
        page_count = t.page_count + 1;
        dirty = insert t.page_count (stamp_page_checksum x (replicate page_size 0)) t.dirty;
      },
    )
unfolding Txn.allocate_page
allocated x page_size t word =
    let room : leb (2 ^ 64) (t.page_count + 1) ≡ false = ground arith in rw room refl

shown-older :
    (x : Xxh3) (page_size q : ℕ) (s : Session)
    → s.txn.page_count + 1 < 2 ^ 64
    → q < s.txn.page_count
    → (Txn.read_page x (Txn.allocate_page x page_size s.txn).1 q s.store).0
      ≡ (Txn.read_page x s.txn q s.store).0
unfolding Txn.read_page own_or_committed
shown-older x page_size q s word old =
    let fresh = stamp_page_checksum x (replicate page_size 0) in
    let apart : (s.txn.page_count == q) ≡ false = ground arith in
    let next : ltb q (s.txn.page_count + 1) ≡ true = ground arith in
    let before : ltb q s.txn.page_count ≡ true = ground arith in
    let found : lookup q (insert s.txn.page_count fresh s.txn.dirty) ≡ lookup q s.txn.dirty =
      lookup-insert s.txn.dirty s.txn.page_count fresh q ∙ (rw apart refl) in
    rw (allocated x page_size s.txn word, found)
      (elim (Option-cases (lookup q s.txn.dirty)) [
        | inr (page, own) ↦ rw own refl
        | inl other ↦ rw (other, next, before) refl
      ])

-- A transaction keeps its pages, as the tree needs it.
pub txn_pages-IsTxn :
    (x : Xxh3) (page_size : ℕ)
    → 8 ≤ page_size
    → IsTxn Session (txn_pages x page_size) (shown x) count
unfolding txn_pages
txn_pages-IsTxn x page_size big = record {
  read = λ p s.
      ap (λ (st : Store). (shown x s p, record s { store = st }))
        (read_page-keeps x s.txn p s.store);
  write =
      λ p b s size pos inside. ap (λ r. r.0) (write_accepted x page_size p b s.txn size pos inside);
  write_count = λ p b s. count_kept x page_size p b s.txn;
  write_self = λ p b s size pos inside. (
    stamp_page_checksum x b,
    shown-own x page_size p b s size pos inside,
    (length-stamp x b, λ o n h. get_range-stamp x b o n h),
  );
  write_other = λ p b s q other. shown-other x page_size p q b s other;
  alloc = λ s word. ap (λ r. r.0) (allocated x page_size s.txn word);
  alloc_count = λ s word. ap (λ r. r.1.page_count) (allocated x page_size s.txn word);
  alloc_other = λ s q word old. shown-older x page_size q s word old;
  set_root = λ r s. unfold Txn.set_root_btree_page Txn.root_btree_page in refl;
  set_root_shown = λ r s q. unfold Txn.set_root_btree_page Txn.read_page own_or_committed in refl;
}
