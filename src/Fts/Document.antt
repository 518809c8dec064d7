-- ===== src/Fts/Document.antt =====
-- crates/embedmind-core/src/index/fts.rs: `postings_for`, `save_meta` and `index_document`, over the
-- pages of a transaction. The loop of a dictionary's chain runs for a number of turns; where they run
-- out, an error of this model stands for a loop that goes on.
use Prim.Native.Nat.{Ordering, min}
use embedmind.Prelude.{
  ℕ, zero, suc, ◌+◌, ◌-◌, ◌^◌, Option, none, some, List, [], ◌∷◌, if◌then◌else◌,
}
use embedmind.Error.{Result, ok, err, internal}
use embedmind.Effect.{Exec, pure, gets, modify, lift, ◌>>=◌, ◌>>◌}
use embedmind.Bytes.{Bytes}
use embedmind.Bytes.Order.{bytes_cmp}
use embedmind.Format.{Xxh3}
use embedmind.Pager.Txn
use embedmind.Btree.Codec.{is_nil}
use embedmind.Btree.Lookup.{PageSource}
use embedmind.Btree.Insert.{TxnPages}
use embedmind.Btree.Session.{Session, txn_pages}
use embedmind.Dict.Get
use embedmind.Dict.Upsert
use embedmind.Fts.{PostingsLayout, for_format_version}
use embedmind.Fts.Postings.{Postings, UlidBytes, upsert, encode}
use embedmind.Fts.Postings.Skip.{decode}
use embedmind.Fts.Tokenize.{Unicode, tokenize, clip_term}
use embedmind.Fts.Meta as M
use embedmind.Fts.Meta.{FtsMeta, fts_spec, load_meta}

-- What the index needs of a transaction.
pub record FtsTxn (S : Type 0) : Type 0 where
  pub pages : TxnPages S
  pub fts_root_page : S → ℕ
  pub set_fts_root_page : ℕ → S → S
  pub format_version : S → ℕ

-- `Txn` of crates/embedmind-core/src/storage/pager.rs
unfoldable pub fts_txn : Xxh3 → ℕ → FtsTxn Session
fts_txn x page_size = record {
  pages = txn_pages x page_size;
  fts_root_page = λ s. Txn.fts_root_page s.store.pager.header s.txn;
  set_fts_root_page = λ p s. record s { txn = Txn.set_fts_root_page p s.txn };
  format_version = λ s. s.store.pager.header.format_version;
}

-- The read side of a transaction.
unfoldable pub view : (S : Type 0) → FtsTxn S → S → PageSource
view S t s = record {
  page = λ page_no. (t.pages.read_page page_no s).0;
  page_size = t.pages.page_size;
  format_version = t.format_version s;
}

some_postings : Result Postings → Result (Option Postings)
some_postings (err failure) = err failure
some_postings (ok postings) = ok (some postings)

decode_found :
    UlidBytes → PostingsLayout → Option (Result (Option (Bytes × ℕ))) → Result (Option Postings)
unfolding some_postings
decode_found u layout none = err (internal "out of turns")
decode_found u layout (some (err failure)) = err failure
decode_found u layout (some (ok none)) = ok none
decode_found u layout (some (ok (some (body, page_no)))) =
    some_postings (decode u body page_no layout)

-- `postings_for`
unfoldable pub postings_for : UlidBytes → PageSource → ℕ → Bytes → ℕ → Result (Option Postings)
unfolding decode_found
postings_for u src root term turns =
    decode_found u (for_format_version src.format_version) (Get.get src fts_spec root term turns)

abbrev pub or_empty : Option Postings → Postings
or_empty none = record { entries = [] }
or_empty (some p) = p

-- `*freqs.entry(term).or_insert(0) += 1`; the terms stand in order here, as they are sorted later.
unfoldable pub bump : Bytes → List (Bytes × ℕ) → List (Bytes × ℕ)
bump term [] = (term, 1) ∷ []
bump term ((other, n) ∷ freqs) =
    let rest = bump term freqs in
    elim (bytes_cmp other term) [
      | Ordering.lt ↦ (other, n) ∷ rest
      | Ordering.eq ↦ (other, n + 1) ∷ freqs
      | Ordering.gt ↦ (term, 1) ∷ (other, n) ∷ freqs
    ]

-- The frequencies of the clipped terms that are not empty.
unfoldable pub term_freqs : List Bytes → List (Bytes × ℕ)
term_freqs [] = []
term_freqs (token ∷ tokens) =
    let rest = term_freqs tokens in
    if is_nil (clip_term token) then rest else bump (clip_term token) rest

-- `freqs.values().sum()`
unfoldable pub sum_freqs : List (Bytes × ℕ) → ℕ
sum_freqs [] = 0
sum_freqs ((term, n) ∷ freqs) = n + sum_freqs freqs

abbrev pub saturating_add : ℕ → ℕ → ℕ
saturating_add a b = min (a + b) (2 ^ 64 - 1)

module _ (x : Xxh3) (u : UlidBytes) (S : Type 0) (t : FtsTxn S) (turns : ℕ) where
  -- The page of the statistics: the one there is, or a new one.
  meta_page : ℕ → Exec S ℕ
  meta_page zero = t.pages.allocate_page
  meta_page (suc p) = pure (suc p)

  -- `save_meta`
  unfoldable pub save_meta : FtsMeta → Exec S (Unit {0})
  unfolding meta_page
  save_meta meta = do
    root ← gets t.fts_root_page
    page_no ← meta_page root
    t.pages.write_page page_no (M.encode x meta t.pages.page_size)
    modify (t.set_fts_root_page page_no)

  -- The loop of `index_document` over the terms: the root of the dictionary after them.
  unfoldable pub index_terms : PostingsLayout → ℕ → List (Bytes × ℕ) → ℕ → Exec S ℕ
  index_terms layout record_id [] root = pure root
  index_terms layout record_id ((term, tf) ∷ terms) root = do
    src ← gets (view S t)
    found ← lift (postings_for u src root term turns)
    root ←
        Upsert.upsert x S t.pages fts_spec root term
          (encode u (upsert record_id tf (or_empty found)) layout)
    index_terms layout record_id terms root

  abbrev meta_or_empty : Option FtsMeta → FtsMeta
  meta_or_empty none = M.empty
  meta_or_empty (some meta) = meta

  -- `index_document`
  unfoldable pub index_document : Unicode → ℕ → List ℕ → Exec S (Unit {0})
  index_document chars record_id content = do
    let freqs = term_freqs (tokenize chars content)
    src ← gets (view S t)
    root ← gets t.fts_root_page
    loaded ← lift (load_meta src root)
    let meta = meta_or_empty loaded
    version ← gets t.format_version
    dict_root ← index_terms (for_format_version version) record_id freqs meta.dict_root
    save_meta (record {
      doc_count = saturating_add meta.doc_count 1;
      total_tokens = saturating_add meta.total_tokens (sum_freqs freqs);
      dict_root = dict_root;
    })
