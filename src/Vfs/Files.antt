-- ===== src/Vfs/Files.antt =====
-- crates/embedmind-core/src/storage/sim.rs: the file table. A path is its bytes.
use embedmind.Prelude.{
  ℕ, ◌-◌, Option, none, some, List, [], ◌∷◌, ◌++◌, length, take, replicate, if◌then◌else◌,
}
use embedmind.Bytes.{Bytes, bytes_eq}

abbrev pub FilePath : Type 0
FilePath = Bytes

pub record SimFileData : Type 0 where
  pub synced : Bytes
  pub current : Bytes
  pub locked_by : Option ℕ

abbrev pub empty_file : SimFileData
empty_file = record { synced = []; current = []; locked_by = none }

abbrev pub FileTable : Type 0
FileTable = List (FilePath × SimFileData)

unfoldable pub find : FilePath → FileTable → Option SimFileData
find p [] = none
find p ((q, d) ∷ fs) = if bytes_eq q p then some d else find p fs

unfoldable pub put : FilePath → SimFileData → FileTable → FileTable
put p d [] = (p, d) ∷ []
put p d ((q, e) ∷ fs) = if bytes_eq q p then (p, d) ∷ fs else (q, e) ∷ put p d fs

unfoldable pub remove : FilePath → FileTable → FileTable
remove p [] = []
remove p ((q, e) ∷ fs) = let rest = remove p fs in if bytes_eq q p then rest else (q, e) ∷ rest

-- `Vec::resize` with zeros.
unfoldable pub resize : ℕ → Bytes → Bytes
resize n bs = take n bs ++ replicate (n - length bs) 0
