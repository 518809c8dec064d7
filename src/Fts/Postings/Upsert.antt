-- ===== src/Fts/Postings/Upsert.antt =====
-- crates/embedmind-core/src/index/fts.rs: `Postings::upsert`, alone and with a body written and
-- looked into.
use embedmind.Prelude.{
  ℕ, suc, ◌^◌, ◌<◌, ◌≤◌, ◌≡◌, inl, inr, refl, ap, ◌∙◌, some, List, [], ◌∷◌, length, ltb, ◌==◌,
  if◌then◌else◌, Bool-cases, arith,
}
use embedmind.Error.{ok}
use embedmind.Fts.{Posting, for_format_version}
use embedmind.Fts.Runs.Sorted.{Steps, Valid, IsSorted, renumber}
use embedmind.Fts.Postings.{Postings, UlidBytes, upsert_entry, upsert, encode}
use embedmind.Fts.Postings.Skip.{term_freq_in, lookup_via_skip}
use embedmind.Fts.Postings.Fixed.{UlidLaws}
use embedmind.Fts.Postings.Equivalent.{lookup_via_skip-encode}

head_upsert :
    (i prev id tf : ℕ) (ps : List Posting)
    → Steps i prev id
    → id < 2 ^ 128
    → 0 < tf
    → tf < 2 ^ 32
    → Valid i prev ps
    → Valid i prev (upsert_entry id tf ps)
unfolding upsert_entry
head_upsert i prev id tf [] s lt pos small v = (s, lt, pos, small, tt)
head_upsert i prev id tf (p ∷ ps) s lt pos small (a, c, d, e, rest) =
    elim (Bool-cases (ltb p.record_id id)) [
      | inl before ↦
          let behind : p.record_id < id = ground arith in
          let ih =
            head_upsert (suc i) p.record_id id tf ps (inr (omega arith, behind)) lt pos small
              rest in
          rw before (a, c, d, e, ih)
      | inr not_before ↦ elim (Bool-cases (p.record_id == id)) [
        | inl same ↦ rw (not_before, same) (a, c, pos, small, rest)
        | inr other ↦
            let ahead : id < p.record_id = ground arith in
            rw (not_before, other)
              (
                s,
                lt,
                pos,
                small,
                (inr (omega arith, ahead), c, d, e, renumber i (suc i) p.record_id ps rest),
              )
      ]
    ]

-- An entry that is put in keeps the order.
pub upsert_entry-IsSorted :
    (id tf : ℕ) (ps : List Posting)
    → id < 2 ^ 128
    → 0 < tf
    → tf < 2 ^ 32
    → IsSorted ps
    → IsSorted (upsert_entry id tf ps)
upsert_entry-IsSorted id tf ps lt pos small v =
    head_upsert 0 0 id tf ps (inl (refl, refl)) lt pos small v

-- What a look-up finds behind an entry that was put in.
pub term_freq_in-upsert_entry :
    (target id tf : ℕ) (ps : List Posting)
    → term_freq_in target (upsert_entry id tf ps)
      ≡ (if id == target then some tf else term_freq_in target ps)
unfolding term_freq_in upsert_entry
term_freq_in-upsert_entry target id tf [] = refl
term_freq_in-upsert_entry target id tf (p ∷ ps) =
    ground (arith, term_freq_in-upsert_entry target id tf ps)

-- In a file of format version 5 or later, where a list ascends and a document's entry is put into it,
-- the look-up in the body that the new list is written to, when that is below 4 GiB, gives for this
-- document the new term frequency and for each other one what the old list had.
pub lookup_via_skip-upsert :
    (u : UlidBytes) (p : Postings) (page_no target version id tf : ℕ)
    → UlidLaws u
    → 5 ≤ version
    → IsSorted p.entries
    → id < 2 ^ 128
    → 0 < tf
    → tf < 2 ^ 32
    → length (upsert_entry id tf p.entries) < 2 ^ 32
    → length (encode u (upsert id tf p) (for_format_version version)) < 2 ^ 32
    → lookup_via_skip u
        (encode u (upsert id tf p) (for_format_version version))
        page_no
        target
        (for_format_version version)
      ≡ ok (if id == target then some tf else term_freq_in target p.entries)
unfolding upsert
lookup_via_skip-upsert u p page_no target version id tf laws newer sorted lt pos small few room =
    lookup_via_skip-encode u (record { entries = upsert_entry id tf p.entries }) page_no target
      version laws newer (upsert_entry-IsSorted id tf p.entries lt pos small sorted) few room
    ∙ ap (λ o. ok o) (term_freq_in-upsert_entry target id tf p.entries)
