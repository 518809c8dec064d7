-- ===== src/Vfs/Laws.antt =====
-- What writes do to a file: found again under its path, extended at its end, and left alone by a
-- crash that fires before the operation.
use embedmind.Prelude.{
  ℕ, ◌+◌, ◌-◌, ◌≡◌, refl, ap, ◌⊎◌, inl, inr, Bool, true, false, Option, none, some, [], ◌∷◌, ◌++◌,
  length, replicate, append-nil, take-all, arith, ltb, ◌==◌, Bool-cases,
}
use embedmind.Error.{Result, ok, err, io, crash}
use embedmind.Bytes.{Bytes, bytes_eq, overwrite, splice}
use embedmind.Bytes.Le.{bytes_eq_refl, bytes_eq_sound}
use embedmind.Vfs.{
  SimState, SimFile, Armed, CrashMode, before, torn, enter_armed, enter_mut_op, fire, data_of,
  set_data, grown, write_at, sync,
}
use embedmind.Vfs.Files.{FilePath, FileTable, SimFileData, find, put, resize}

pub find-put_self : (p : FilePath) (d : SimFileData) (fs : FileTable) → find p (put p d fs) ≡ some d
unfolding find put
find-put_self p d [] = ground (arith, bytes_eq_refl p)
find-put_self p d ((q, e) ∷ fs) = ground (arith, bytes_eq_refl p, find-put_self p d fs)

pub find-put_ne :
    (p q : FilePath) (d : SimFileData) (fs : FileTable)
    → bytes_eq p q ≡ false
    → find q (put p d fs) ≡ find q fs
unfolding find put
find-put_ne p q d [] h = rw h
find-put_ne p q d ((r, e) ∷ fs) h = ground (arith, bytes_eq_sound r p, find-put_ne p q d fs h)

overwrite-zeros : (buf : Bytes) → overwrite (replicate (length buf) 0) buf ≡ buf
unfolding overwrite
overwrite-zeros [] = refl
overwrite-zeros (b ∷ bs) = ap (λ t. b ∷ t) (overwrite-zeros bs)

splice-end : (c buf : Bytes) → splice (c ++ replicate (length buf) 0) (length c) buf ≡ c ++ buf
unfolding splice
splice-end [] buf = overwrite-zeros buf
splice-end (b ∷ c) buf = ap (λ t. b ∷ t) (splice-end c buf)

-- A write at the end of a file appends.
pub splice-grown_end :
    (d : SimFileData) (buf : Bytes)
    → splice (grown d (length d.current) buf) (length d.current) buf ≡ d.current ++ buf
unfolding grown resize
splice-grown_end d [] =
    let t : ltb (length d.current) (length d.current + 0) ≡ false = ground arith in
    rw (t, append-nil) (rw append-nil at (splice-end d.current []))
splice-grown_end d (b ∷ bs) =
    let c = d.current in
    let n = length (b ∷ bs) in
    let t : ltb (length c) (length c + n) ≡ true = ground arith in
    let e : length c + n - length c ≡ n = omega arith in
    rw (t, e, take-all (length c + n) c (omega arith)) (splice-end c (b ∷ bs))

-- Armed crashes fire before their operation: no write is torn.
abbrev pub NoTear : Option Armed → Type 0
NoTear none = Unit
NoTear (some a) = a.mode ≡ before

fire_before :
    (m : CrashMode) (seed : ℕ) (supports_torn : Bool)
    → m ≡ before
    → fire m seed supports_torn ≡ err (io crash)
unfolding fire
fire_before before seed supports_torn e = refl
fire_before torn seed supports_torn e = cc

-- How a mutating operation goes on or fails: one operation later, or with the files as they were.
abbrev Entered : Result (Option ℕ) × SimState → SimState → Type 0
Entered r s =
    (r ≡ (ok none, record s { ops = s.ops + 1 }))
    ⊎ ((s' : SimState) × (r ≡ (err (io crash), s')) × (s'.files ≡ s.files))

enter_armed-cases :
    (o : Option Armed) (supports_torn : Bool) (s : SimState)
    → NoTear o
    → Entered (enter_armed o supports_torn s) s
unfolding enter_armed
enter_armed-cases none supports_torn s h = inl refl
enter_armed-cases (some a) supports_torn s h = elim (Bool-cases (s.ops == a.at_op)) [
  | inl y ↦
      let s' : SimState = record s { ops = s.ops + 1; crashed = true } in
      inr (
        s',
        rw y (
            ap (λ (r : Result (Option ℕ)). (r, s'))
              (fire_before a.mode a.torn_seed supports_torn h)),
        refl,
      )
  | inr n ↦ inl (rw n)
]

enter_live :
    (supports_torn : Bool) (s : SimState)
    → s.crashed ≡ false
    → enter_mut_op supports_torn s ≡ enter_armed s.crash_at supports_torn s
unfolding enter_mut_op
enter_live supports_torn s e = ground arith

enter_dead :
    (supports_torn : Bool) (s : SimState)
    → s.crashed ≡ true
    → enter_mut_op supports_torn s ≡ (err (io crash), s)
unfolding enter_mut_op
enter_dead supports_torn s e = ground arith

enter_mut_op-cases :
    (supports_torn : Bool) (s : SimState)
    → NoTear s.crash_at
    → Entered (enter_mut_op supports_torn s) s
enter_mut_op-cases supports_torn s h = elim (Bool-cases s.crashed) [
  | inl dead ↦ inr (s, enter_dead supports_torn s dead, refl)
  | inr live ↦ rw (enter_live supports_torn s live) (enter_armed-cases s.crash_at supports_torn s h)
]

-- The data of the file after more bytes were appended.
abbrev pub appended : SimFileData → Bytes → SimFileData
appended d buf = record d { current = d.current ++ buf }

-- On a file that exists, with no torn write armed, a write at the end of the file appends its
-- bytes and counts one operation, or fails as a crash and leaves the files alone.
pub write_at-end :
    (f : SimFile) (s : SimState) (d : SimFileData) (buf : Bytes) (offset : ℕ)
    → NoTear s.crash_at
    → find f.path s.files ≡ some d
    → offset ≡ length d.current
    → (write_at f buf offset s
        ≡ (ok tt, record s { files = put f.path (appended d buf) s.files; ops = s.ops + 1 }))
      ⊎ ((s' : SimState) × (write_at f buf offset s ≡ (err (io crash), s')) × (s'.files ≡ s.files))
unfolding write_at data_of set_data
write_at-end f s d buf offset h e o = elim (enter_mut_op-cases true s h) [
  | inl go ↦ inl (rw (go, e, o, splice-grown_end d buf))
  | inr (s', fail, same) ↦ inr (s', rw fail, same)
]

pub sync-cases :
    (f : SimFile) (s : SimState) (d : SimFileData)
    → NoTear s.crash_at
    → find f.path s.files ≡ some d
    → (s' : SimState) × (((sync f s ≡ (ok tt, s')) × (s'.crash_at ≡ s.crash_at))
        ⊎ (sync f s ≡ (err (io crash), s')))
      × ((s'.files ≡ s.files) ⊎ (s'.files ≡ put f.path (record d { synced = d.current }) s.files))
unfolding sync data_of set_data
sync-cases f s d h e = elim (enter_mut_op-cases false s h) [
  | inl go ↦ elim (Bool-cases s.lying_sync) [
    | inl lies ↦ (record s { ops = s.ops + 1 }, inl (rw (go, lies), refl), inl refl)
    | inr honest ↦ (
      record s { files = put f.path (record d { synced = d.current }) s.files; ops = s.ops + 1 },
      inl (rw (go, honest, e), refl),
      inr refl,
    )
  ]
  | inr (s', fail, same) ↦ (s', inr (rw fail), inl same)
]
