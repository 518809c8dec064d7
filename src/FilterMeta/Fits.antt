-- ===== src/FilterMeta/Fits.antt =====
-- crates/embedmind-core/src/index/filter_meta.rs, `Table::decide`: what the checks of an entry say of
-- its record, one by one and together.
use Prim.Native.Nat.{bit_or}
use embedmind.Prelude.{
  ℕ, ◌≡◌, ◌≢◌, inl, inr, refl, sym as inverse, ap, ◌∙◌, bit_and, Bool, true, false, Bool-cases,
  Option-cases, ◌&&◌, ◌||◌, not, Option, none, some, [], ◌∷◌, ◌==◌, if◌then◌else◌, arith,
}
use embedmind.Error.{Result, ok}
use embedmind.Bytes.{Bytes, bytes_eq}
use embedmind.Bytes.Le.{bytes_eq_refl, bytes_eq_sound}
use embedmind.Format.HnswNode.{Ulids}
use embedmind.StringMap as S
use embedmind.Record.{MemoryRecord}
use embedmind.Record.Encode.{unwrap_or_empty}
use embedmind.FilterMeta.{
  flag_if, sym_none, sym, dead, out_of_scope, Decision, reject, need_record, want_of, project_want,
  agent_want, check_want, check_metadata, or_else, Update, scope_holds, agent_holds, is_empty_list,
  settled,
}

-- What `intern` gives for a string that the table has: none for the strings that do not fit.
abbrev pub symbol_of : (Bytes → Option ℕ) → Bytes → Option ℕ
symbol_of symbols [] = some sym_none
symbol_of symbols (c ∷ s) = symbols (c ∷ s)

-- The symbols of a table: no two strings share one, and none has that of the empty string.
pub record IsSymbols (symbols : Bytes → Option ℕ) : Type 0 where
  pub distinct : (s t : Bytes) (n : ℕ) → symbols s ≡ some n → symbols t ≡ some n → s ≡ t
  pub not_none : (s : Bytes) → symbols s ≢ some sym_none

-- The update for a record.
abbrev pub update_of : (U : Ulids) → MemoryRecord U → ℕ → Update
update_of U rec doc_len = record {
  tombstone = rec.tombstone;
  superseded = rec.superseded;
  has_metadata = not (is_empty_list rec.metadata);
  project = rec.project;
  agent = rec.provenance.agent;
  doc_len = doc_len;
}

-- How one check agrees with the record: it passes, it leaves the matter open, or it rejects.
pub data Fits : Option Decision → Bool → Type 0 where
  passes_on : Fits none true
  unsure : (b : Bool) → Fits (some need_record) b
  rejects : Fits (some (reject out_of_scope)) false

pub unequal : (x y : Bytes) → x ≢ y → bytes_eq x y ≡ false
unequal x y h = elim (Bool-cases (bytes_eq x y)) [
  | inl e ↦ absurd (h (bytes_eq_sound x y e))
  | inr e ↦ e
]

-- The check of a symbol, given that the symbols are equal as the strings are.
pub Fits-sym :
    (n s : ℕ) (x y : Bytes)
    → (n ≡ s → x ≡ y)
    → (x ≡ y → n ≡ s)
    → Fits (check_want (sym s) n false) (bytes_eq x y)
unfolding check_want
Fits-sym n s x y to from = elim (Bool-cases (n == s)) [
  | inl e ↦ let same : x ≡ y = to (ground arith) in rw (e, same, bytes_eq_refl y) passes_on
  | inr e ↦ rw (e, unequal x y (λ q. let f : n ≡ s = from q in ground arith)) rejects
]

-- The wanted string against the string of the record.
module _ (symbols : Bytes → Option ℕ) (v : IsSymbols symbols) where
  pub symbols_agree :
      (text : Bytes) (n s c : ℕ) (wanted : Bytes)
      → symbol_of symbols text ≡ some n
      → symbols (c ∷ wanted) ≡ some s
      → n ≡ s
      → text ≡ c ∷ wanted
  symbols_agree [] n s c wanted h e same =
      let zero_sym : symbols (c ∷ wanted) ≡ some sym_none = ground arith in
      absurd (v.not_none (c ∷ wanted) zero_sym)
  symbols_agree (d ∷ r) n s c wanted h e same =
      v.distinct (d ∷ r) (c ∷ wanted) n h (e ∙ ap some (inverse same))

  pub same_text :
      (text : Bytes) (n c : ℕ) (wanted : Bytes)
      → symbol_of symbols text ≡ some n
      → Fits (check_want (want_of (symbols (c ∷ wanted))) n false) (bytes_eq text (c ∷ wanted))
  unfolding check_want
  same_text text n c wanted h = elim (Option-cases (symbols (c ∷ wanted))) [
    | inl e ↦
        let apart : text ≢ c ∷ wanted = λ q.
          let found : symbols (c ∷ wanted) ≡ some n = rw q at h in
          absurd (ground (arith, e, found)) in
        rw (e, unequal text (c ∷ wanted) apart) rejects
    | inr (s, e) ↦ rw e (
        Fits-sym n s text (c ∷ wanted) (symbols_agree text n s c wanted h e)
          (λ q. let found : symbols (c ∷ wanted) ≡ some n = rw q at h in ground (arith, e, found)))
  ]

  pub Fits-project :
      (scope project : Option Bytes) (n : ℕ)
      → project ≢ some []
      → symbol_of symbols (unwrap_or_empty project) ≡ some n
      → Fits (check_want (project_want symbols scope) n false) (scope_holds scope project)
  unfolding check_want
  Fits-project none project n ok_project h = passes_on
  Fits-project (some []) none n ok_project h = rejects
  Fits-project (some []) (some []) n ok_project h = absurd (ok_project refl)
  Fits-project (some []) (some (d ∷ r)) n ok_project h = unfold bytes_eq in rejects
  Fits-project (some (c ∷ w)) none n ok_project h = unfold bytes_eq in same_text [] n c w h
  Fits-project (some (c ∷ w)) (some text) n ok_project h = same_text text n c w h

  pub Fits-agent :
      (wanted : Option Bytes) (agent : Bytes) (n : ℕ)
      → symbol_of symbols agent ≡ some n
      → Fits (check_want (agent_want symbols wanted) n false) (agent_holds wanted agent)
  unfolding check_want
  Fits-agent none agent n h = passes_on
  Fits-agent (some []) agent n h =
      Fits-sym n sym_none agent [] (agent_empty agent n h) (λ q. ground (arith, h, q))
    where
      agent_empty : (agent : Bytes) (n : ℕ) → symbol_of symbols agent ≡ some n → n ≡ 0 → agent ≡ []
      agent_empty [] n h e = refl
      agent_empty (d ∷ r) n h e =
          let zero_sym : symbols (d ∷ r) ≡ some sym_none = ground arith in
          absurd (v.not_none (d ∷ r) zero_sym)
  Fits-agent (some (c ∷ w)) agent n h = same_text agent n c w h

pub flags_lem :
    (t s m : Bool)
    → let f = bit_or (bit_or (flag_if t 1) (flag_if s 2)) (flag_if m 4) in
      ((bit_and f 3 == 0) ≡ not (t || s))
      × ((bit_and f 8 == 0) ≡ true)
      × ((bit_and f 4 == 0) ≡ not m)
flags_lem true true true = (refl, refl, refl)
flags_lem true true false = (refl, refl, refl)
flags_lem true false true = (refl, refl, refl)
flags_lem true false false = (refl, refl, refl)
flags_lem false true true = (refl, refl, refl)
flags_lem false true false = (refl, refl, refl)
flags_lem false false true = (refl, refl, refl)
flags_lem false false false = (refl, refl, refl)

pub overflow_lem :
    (t s m : Bool)
    → let f = bit_or (bit_or (bit_or (flag_if t 1) (flag_if s 2)) (flag_if m 4)) 8 in
      ((bit_and f 3 == 0) ≡ not (t || s))
      × ((bit_and f 8 == 0) ≡ false)
      × ((bit_and f 4 == 0) ≡ not m)
overflow_lem true true true = (refl, refl, refl)
overflow_lem true true false = (refl, refl, refl)
overflow_lem true false true = (refl, refl, refl)
overflow_lem true false false = (refl, refl, refl)
overflow_lem false true true = (refl, refl, refl)
overflow_lem false true false = (refl, refl, refl)
overflow_lem false false true = (refl, refl, refl)
overflow_lem false false false = (refl, refl, refl)

pub not-not : (b : Bool) → not (not b) ≡ b
not-not true = refl
not-not false = refl

-- The whole decision against the whole check.
pub verdict :
    (t s m hf sh ah : Bool) (pc ac : Option Decision) (pass : Result Bool)
    → Fits pc sh
    → Fits ac ah
    → ((hf ≡ false) → pass ≡ ok true)
    → ((m ≡ false) → (hf ≡ true) → pass ≡ ok false)
    → let full = if not t && (not s && (sh && ah)) then pass else ok false in
      settled
        (if not (not (t || s))
          then reject dead
          else or_else pc (or_else ac (check_metadata hf (not (not m)))))
        full
      ≡ full
unfolding check_metadata
verdict true s m hf sh ah pc ac pass p a free none_there = refl
verdict false true m hf sh ah pc ac pass p a free none_there = refl
verdict false false m hf sh ah _ ac pass (unsure _) a free none_there = refl
verdict false false m hf _ ah _ ac pass rejects a free none_there = refl
verdict false false m hf _ ah _ _ pass passes_on (unsure _) free none_there = refl
verdict false false m hf _ _ _ _ pass passes_on rejects free none_there = refl
verdict false false m false _ _ _ _ pass passes_on passes_on free none_there = inverse (free refl)
verdict false false false true _ _ _ _ pass passes_on passes_on free none_there =
    inverse (none_there refl refl)
verdict false false true true _ _ _ _ pass passes_on passes_on free none_there = refl

pub want_open : (o : Option ℕ) (b : Bool) → Fits (check_want (want_of o) 0 true) b
unfolding check_want
want_open none b = unsure b
want_open (some n) b = unsure b

pub empty_get {ℓ} :
    {V : Type ℓ} (key : Bytes) (m : S.StringMap V)
    → not (is_empty_list m) ≡ false
    → S.get key m ≡ none
unfolding S.get
empty_get key [] h = refl
empty_get key (x ∷ m) h = cc

pub Fits-open :
    (symbols : Bytes → Option ℕ) (scope project : Option Bytes)
    → Fits (check_want (project_want symbols scope) 0 true) (scope_holds scope project)
unfolding check_want
Fits-open symbols none project = passes_on
Fits-open symbols (some []) project = unsure (scope_holds (some []) project)
Fits-open symbols (some (c ∷ w)) project =
    want_open (symbols (c ∷ w)) (scope_holds (some (c ∷ w)) project)

pub Fits-open_agent :
    (symbols : Bytes → Option ℕ) (wanted : Option Bytes) (agent : Bytes)
    → Fits (check_want (agent_want symbols wanted) 0 true) (agent_holds wanted agent)
unfolding check_want
Fits-open_agent symbols none agent = passes_on
Fits-open_agent symbols (some []) agent = unsure (agent_holds (some []) agent)
Fits-open_agent symbols (some (c ∷ w)) agent =
    want_open (symbols (c ∷ w)) (agent_holds (some (c ∷ w)) agent)
