-- ===== src/FilterMeta/Agrees.antt =====
-- crates/embedmind-core/src/index/filter_meta.rs, `Table::decide`: about entries that mirror a record,
-- beside the check of the record in crates/embedmind-core/src/api.rs.
use embedmind.Prelude.{
  ℕ, ◌≡◌, ◌≢◌, ◌⊎◌, inl, inr, refl, ap, ◌∙◌, bit_and, Bool, true, false, ◌||◌, not, Option, none,
  some, List, [], ◌∷◌, ◌==◌,
}
use embedmind.Error.{ok}
use embedmind.Bytes.{Bytes}
use embedmind.Format.HnswNode.{Ulids}
use embedmind.StringMap as S
use embedmind.Record.{Floats, Filter, matches, MemoryRecord}
use embedmind.Record.Encode.{unwrap_or_empty}
use embedmind.FilterMeta.{
  Entry, Table, project_want, agent_want, check_want, decide_entry, decide_found, decide, entry_of,
  Query, scope_holds, agent_holds, in_scope, passes, is_empty_list, meta_needs, keep_record, keep,
}
use embedmind.FilterMeta.Fits.{
  symbol_of, IsSymbols, update_of, Fits, Fits-project, Fits-agent, flags_lem, overflow_lem, not-not,
  verdict, empty_get, Fits-open, Fits-open_agent,
}

module _ (U : Ulids) (F : Floats) (rec : MemoryRecord U) where
  passes_free :
      (fs : List (Bytes × Filter)) → not (is_empty_list fs) ≡ false → passes U F fs rec ≡ ok true
  unfolding passes
  passes_free [] h = refl
  passes_free (f ∷ fs) h = cc

  passes_absent :
      (fs : List (Bytes × Filter))
      → not (is_empty_list rec.metadata) ≡ false
      → not (is_empty_list fs) ≡ true
      → passes U F fs rec ≡ ok false
  unfolding passes matches
  passes_absent [] none_there some_filter = cc
  passes_absent ((key, filter) ∷ fs) none_there some_filter =
      let gone : S.get key rec.metadata ≡ none = empty_get key rec.metadata none_there in
      rw gone refl

-- What `intern` gave for a string: nothing, or the symbol that the table has.
abbrev pub IsInterned : (Bytes → Option ℕ) → Option ℕ → Bytes → Type 0
IsInterned symbols given text =
    (given ≡ none) ⊎ ((n : ℕ) × (given ≡ some n) × (symbol_of symbols text ≡ some n))

module _ (U : Ulids) (F : Floats) (table : Table U) (query : Query) (rec : MemoryRecord U) where
  by_entry :
      (entry : Entry) (overflow : Bool)
      → table.entries rec.id ≡ some entry
      → ((bit_and entry.flags 3 == 0) ≡ not (rec.tombstone || rec.superseded))
        × ((bit_and entry.flags 8 == 0) ≡ not overflow)
        × ((bit_and entry.flags 4 == 0) ≡ not (not (is_empty_list rec.metadata)))
      → Fits
          (check_want (project_want table.symbols query.scope) entry.project_sym overflow)
          (scope_holds query.scope rec.project)
      → Fits
          (check_want (agent_want table.symbols query.agent) entry.agent_sym overflow)
          (agent_holds query.agent rec.provenance.agent)
      → keep U F table query rec ≡ keep_record U F query rec
  unfolding keep keep_record decide decide_found decide_entry in_scope meta_needs
  by_entry entry overflow here (dead_flag, overflow_flag, data_flag) fits fits' =
      rw (here, dead_flag, data_flag, overflow_flag, not-not overflow)
        (verdict rec.tombstone rec.superseded (not (is_empty_list rec.metadata))
          (not (is_empty_list query.filters)) (scope_holds query.scope rec.project)
          (agent_holds query.agent rec.provenance.agent) _ _ (passes U F query.filters rec) fits
          fits' (passes_free U F rec query.filters) (passes_absent U F rec query.filters))

  -- The entry of a record whose strings have no symbols.
  by_overflow :
      (doc_len : ℕ) (p a : Option ℕ)
      → table.entries rec.id ≡ some (entry_of (update_of U rec doc_len) p a)
      → entry_of (update_of U rec doc_len) p a ≡ entry_of (update_of U rec doc_len) none none
      → keep U F table query rec ≡ keep_record U F query rec
  by_overflow doc_len p a here unknown =
      by_entry (entry_of (update_of U rec doc_len) none none) true (here ∙ ap some unknown)
        (unfold entry_of in
          overflow_lem rec.tombstone rec.superseded (not (is_empty_list rec.metadata)))
        (unfold entry_of in Fits-open table.symbols query.scope rec.project)
        (unfold entry_of in Fits-open_agent table.symbols query.agent rec.provenance.agent)

-- Where the entry of a record is what a write of the record made it, and the record has no empty
-- project, the decision by the entry, with the record as its last resort, is the check of the
-- record: the same records are kept, and the same filters fail.
pub keep-keep_record :
    (U : Ulids) (F : Floats) (table : Table U) (query : Query) (rec : MemoryRecord U) (doc_len : ℕ)
    (p a : Option ℕ)
    → IsSymbols table.symbols
    → rec.project ≢ some []
    → IsInterned table.symbols p (unwrap_or_empty rec.project)
    → IsInterned table.symbols a rec.provenance.agent
    → table.entries rec.id ≡ some (entry_of (update_of U rec doc_len) p a)
    → keep U F table query rec ≡ keep_record U F query rec
keep-keep_record U F table query rec doc_len p a v ok_project (inr (n, given, same))
      (inr (n', given', same')) e =
    let here : table.entries rec.id ≡ some (entry_of (update_of U rec doc_len) (some n) (some n')) =
      e ∙ (rw (given, given') refl) in
    by_entry U F table query rec (entry_of (update_of U rec doc_len) (some n) (some n')) false here
      (unfold entry_of in flags_lem rec.tombstone rec.superseded (not (is_empty_list rec.metadata)))
      (unfold entry_of in Fits-project table.symbols v query.scope rec.project n ok_project same)
      (unfold entry_of in Fits-agent table.symbols v query.agent rec.provenance.agent n' same')
keep-keep_record U F table query rec doc_len p a v ok_project (inl gone) known' e =
    by_overflow U F table query rec doc_len none a (e ∙ (rw gone refl)) (unfold entry_of in refl)
keep-keep_record U F table query rec doc_len p a v ok_project (inr (n, given, same)) (inl gone) e =
    by_overflow U F table query rec doc_len (some n) none (e ∙ (rw (given, gone) refl))
      (unfold entry_of in refl)
