-- ===== src/Tests/Filters.antt =====
-- The decision by the entry of a record at a concrete input.
use embedmind.Prelude.{
  ℕ, ◌≡◌, inl, inr, refl, false, Bool-cases, Option, none, some, [], ◌∷◌, if◌then◌else◌, arith,
}
use embedmind.Bytes.{Bytes, bytes_eq}
use embedmind.Bytes.Le.{bytes_eq_sound}
use embedmind.Record.{i64, eq, MemoryRecord}
use embedmind.FilterMeta.{Table, entry_of, Query, keep, keep_record}
use embedmind.FilterMeta.Fits.{IsSymbols, update_of}
use embedmind.FilterMeta.Agrees.{keep-keep_record}
use embedmind.Tests.Nodes.{short_ulids}
use embedmind.Tests.Records.{small_record, plain_floats}

-- One project has a symbol.
abbrev one_symbol : Bytes → Option ℕ
one_symbol s = if bytes_eq s (112 ∷ []) then some 1 else none

one_symbol-only : (s : Bytes) (n : ℕ) → one_symbol s ≡ some n → (s ≡ 112 ∷ []) × (n ≡ 1)
one_symbol-only s n h = elim (Bool-cases (bytes_eq s (112 ∷ []))) [
  | inl e ↦ (bytes_eq_sound s (112 ∷ []) e, ground (arith, e, h))
  | inr e ↦ absurd (ground (arith, e, h))
]

one_symbol-IsSymbols : IsSymbols one_symbol
one_symbol-IsSymbols = record {
  distinct =
      λ s t n h k. let (a, b) = one_symbol-only s n h in let (c, d) = one_symbol-only t n k in cc;
  not_none = λ s h. let (a, b) = one_symbol-only s 0 h in absurd (omega arith);
}

abbrev nameless : MemoryRecord short_ulids
nameless = record small_record {
  superseded = false;
  provenance = record { agent = []; session_id = none; created_at_micros = 5 };
}

abbrev one_entry : Table short_ulids
one_entry = record {
  entries = λ id. some (entry_of (update_of short_ulids nameless 2) (some 1) (some 0));
  symbols = one_symbol;
}

-- A project and a filter on metadata.
abbrev scoped : Query
scoped = record { scope = some (112 ∷ []); agent = none; filters = (107 ∷ [], eq (i64 7)) ∷ [] }

keep-keep_record_example :
    keep short_ulids plain_floats one_entry scoped nameless
    ≡ keep_record short_ulids plain_floats scoped nameless
unfolding bytes_eq
keep-keep_record_example =
    keep-keep_record short_ulids plain_floats one_entry scoped nameless 2 (some 1) (some 0)
      one_symbol-IsSymbols (λ e. cc) (inr (1, refl, refl)) (inr (0, refl, refl)) refl
