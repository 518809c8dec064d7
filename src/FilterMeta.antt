-- ===== src/FilterMeta.antt =====
-- crates/embedmind-core/src/index/filter_meta.rs: the decision on a candidate from the entry that
-- mirrors its record; and what it stands for in crates/embedmind-core/src/api.rs, the check of the
-- record itself (`in_scope`, `record_passes_filters`).
pub mod Fits
pub mod Agrees
use Prim.Native.Nat.{bit_or}
use embedmind.Prelude.{
  ℕ, bit_and, Bool, true, false, ◌&&◌, not, Option, none, some, List, [], ◌∷◌, ◌==◌, if◌then◌else◌,
}
use embedmind.Error.{Result, ok, ◌>>=◌}
use embedmind.Bytes.{Bytes, bytes_eq}
use embedmind.Format.HnswNode.{Ulids}
use embedmind.StringMap as S
use embedmind.Record.{Floats, Filter, matches, MemoryRecord}

abbrev pub flag_tombstone : ℕ
flag_tombstone = 1

abbrev pub flag_superseded : ℕ
flag_superseded = 2

abbrev pub flag_has_metadata : ℕ
flag_has_metadata = 4

abbrev pub flag_scope_overflow : ℕ
flag_scope_overflow = 8

abbrev pub sym_none : ℕ
sym_none = 0

pub record Entry : Type 0 where
  pub flags : ℕ
  pub project_sym : ℕ
  pub agent_sym : ℕ
  pub doc_len : ℕ

pub data Want : Type 0 where
  any absent : Want
  sym : ℕ → Want

pub record QueryNeeds : Type 0 where
  pub project : Want
  pub agent : Want
  pub has_metadata_filters : Bool

pub data RejectReason : Type 0 where
  dead out_of_scope filtered_out : RejectReason

pub data Decision : Type 0 where
  accept need_record : Decision
  reject : RejectReason → Decision

-- The two hash maps, as what they answer.
pub record Table (U : Ulids) : Type 0 where
  pub entries : U.Ulid → Option Entry
  pub symbols : Bytes → Option ℕ

abbrev pub want_of : Option ℕ → Want
want_of none = absent
want_of (some s) = sym s

-- The bodies of `Table::want_project` and `Table::want_agent`, over the symbols.
abbrev pub project_want : (Bytes → Option ℕ) → Option Bytes → Want
project_want symbols none = any
project_want symbols (some []) = absent
project_want symbols (some (c ∷ p)) = want_of (symbols (c ∷ p))

abbrev pub agent_want : (Bytes → Option ℕ) → Option Bytes → Want
agent_want symbols none = any
agent_want symbols (some []) = sym sym_none
agent_want symbols (some (c ∷ a)) = want_of (symbols (c ∷ a))

abbrev pub want_project : (U : Ulids) → Table U → Option Bytes → Want
want_project U table scope = project_want table.symbols scope

abbrev pub want_agent : (U : Ulids) → Table U → Option Bytes → Want
want_agent U table agent = agent_want table.symbols agent

-- One turn of the loop over the wants: an early return, or none.
unfoldable pub check_want : Want → ℕ → Bool → Option Decision
check_want any mirrored scope_overflow = none
check_want absent mirrored true = some need_record
check_want absent mirrored false = some (reject out_of_scope)
check_want (sym s) mirrored true = some need_record
check_want (sym s) mirrored false = if mirrored == s then none else some (reject out_of_scope)

-- What follows the loop.
unfoldable pub check_metadata : Bool → Bool → Decision
check_metadata false has_metadata = accept
check_metadata true false = reject filtered_out
check_metadata true true = need_record

abbrev pub or_else : Option Decision → Decision → Decision
or_else none d = d
or_else (some e) d = e

unfoldable pub decide_entry : Entry → QueryNeeds → Decision
decide_entry e needs =
    let scope_overflow = not (bit_and e.flags flag_scope_overflow == 0) in
    let has_metadata = not (bit_and e.flags flag_has_metadata == 0) in
    if not (bit_and e.flags (bit_or flag_tombstone flag_superseded) == 0)
    then reject dead
    else or_else (check_want needs.project e.project_sym scope_overflow) (
        or_else (check_want needs.agent e.agent_sym scope_overflow)
          (check_metadata needs.has_metadata_filters has_metadata))

unfoldable pub decide_found : Option Entry → QueryNeeds → Decision
decide_found none needs = need_record
decide_found (some e) needs = decide_entry e needs

-- `Table::decide`
unfoldable pub decide : (U : Ulids) → Table U → U.Ulid → QueryNeeds → Decision
unfolding decide_found
decide U table id needs = decide_found (table.entries id) needs

-- `Update`
pub record Update : Type 0 where
  pub tombstone : Bool
  pub superseded : Bool
  pub has_metadata : Bool
  pub project : Option Bytes
  pub agent : Bytes
  pub doc_len : ℕ

abbrev pub flag_if : Bool → ℕ → ℕ
flag_if true f = f
flag_if false f = 0

-- The entry that `record_updates` writes for an update, from what `intern` gave for its strings.
unfoldable pub entry_of : Update → Option ℕ → Option ℕ → Entry
entry_of u (some p) (some a) = record {
  flags =
      bit_or (bit_or (flag_if u.tombstone flag_tombstone) (flag_if u.superseded flag_superseded))
        (flag_if u.has_metadata flag_has_metadata);
  project_sym = p;
  agent_sym = a;
  doc_len = u.doc_len;
}
entry_of u p a = record {
  flags =
      bit_or
        (bit_or (bit_or (flag_if u.tombstone flag_tombstone) (flag_if u.superseded flag_superseded))
          (flag_if u.has_metadata flag_has_metadata))
        flag_scope_overflow;
  project_sym = sym_none;
  agent_sym = sym_none;
  doc_len = u.doc_len;
}

-- What a query asks of a record: `Query.scope` (none is `Scope::All`), `agent` and `filters`.
pub record Query : Type 0 where
  pub scope : Option Bytes
  pub agent : Option Bytes
  pub filters : List (Bytes × Filter)

abbrev pub is_some_bytes : Option Bytes → Bytes → Bool
is_some_bytes none p = false
is_some_bytes (some o) p = bytes_eq o p

abbrev pub scope_holds : Option Bytes → Option Bytes → Bool
scope_holds none project = true
scope_holds (some p) project = is_some_bytes project p

abbrev pub agent_holds : Option Bytes → Bytes → Bool
agent_holds none agent = true
agent_holds (some wanted) agent = bytes_eq agent wanted

-- `in_scope`
unfoldable pub in_scope : (U : Ulids) → Query → MemoryRecord U → Bool
in_scope U query rec =
    not rec.tombstone
    && (not rec.superseded
        && (scope_holds query.scope rec.project && agent_holds query.agent rec.provenance.agent))

-- `Query::record_passes_filters`
unfoldable pub passes : (U : Ulids) → Floats → List (Bytes × Filter) → MemoryRecord U → Result Bool
passes U F [] rec = ok true
passes U F ((key, filter) ∷ filters) rec = do
  holds ← matches F filter (S.get key rec.metadata)
  let rest = passes U F filters rec
  if holds then rest else ok false

abbrev pub is_empty_list {ℓ} : {A : Type ℓ} → List A → Bool
is_empty_list [] = true
is_empty_list (x ∷ xs) = false

-- `meta_needs`
unfoldable pub meta_needs : (U : Ulids) → Table U → Query → QueryNeeds
meta_needs U table query = record {
  project = want_project U table query.scope;
  agent = want_agent U table query.agent;
  has_metadata_filters = not (is_empty_list query.filters);
}

-- The check of the record itself, once it is loaded.
unfoldable pub keep_record : (U : Ulids) → Floats → Query → MemoryRecord U → Result Bool
keep_record U F query rec = if in_scope U query rec then passes U F query.filters rec else ok false

-- `keep`: the entry first, and the record where the entry does not decide.
abbrev pub settled : Decision → Result Bool → Result Bool
settled accept full = ok true
settled (reject reason) full = ok false
settled need_record full = full

unfoldable pub keep : (U : Ulids) → Floats → Table U → Query → MemoryRecord U → Result Bool
keep U F table query rec =
    settled (decide U table rec.id (meta_needs U table query)) (keep_record U F query rec)
