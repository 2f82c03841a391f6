-- ===== src/Mass/Files.antt =====
-- What src/nosql.rs relies on of the file system.
use trueos_picasso.Prelude.{
  ℕ, ◌^◌, ◌<◌, ◌≡◌, ◌≢◌, Bool, true, Option, some, List, [], length, take, drop,
}

-- `staging/{:016x}.part` and `objects/{:016x}.mass`
pub data FilePath : Type 0 where
  staging : ℕ → FilePath
  objects : ℕ → FilePath

-- A seek past the largest `i64` is refused.
abbrev pub max_offset : ℕ
max_offset = 2 ^ 63

-- `contents` is what a path holds. `create` is an open with `create_new`, `write_all` writes a file
-- that is open, and may fail in the middle of it. A failed `create` or `rename` changes nothing. `read`
-- is an open, a seek and `read_exact`, which needs as many bytes as it is asked for behind the offset;
-- none at all can be read past the end.
pub record FileSystem : Type 1 where
  pub State : Type 0
  pub contents : State → FilePath → Option (List ℕ)
  pub create : FilePath → State → Option State
  pub write_all : FilePath → List ℕ → State → Bool × State
  pub sync_all : FilePath → State → Bool
  pub rename : (from to : FilePath) → State → Option State
  pub sync_objects : State → Bool
  pub read : FilePath → (offset length : ℕ) → State → Option (List ℕ)
  pub create_self :
      (p : FilePath) (s : State) {s' : State} → create p s ≡ some s' → contents s' p ≡ some []
  pub create_ne :
      (p : FilePath) (s : State) {s' : State}
      → create p s ≡ some s'
      → (q : FilePath) → p ≢ q
      → contents s' q ≡ contents s q
  pub write_self :
      (p : FilePath) (bytes : List ℕ) (s : State) {s' : State}
      → contents s p ≡ some []
      → write_all p bytes s ≡ (true, s')
      → contents s' p ≡ some bytes
  pub write_ne :
      (p : FilePath) (bytes : List ℕ) (s : State) (q : FilePath)
      → p ≢ q
      → contents (write_all p bytes s).1 q ≡ contents s q
  pub rename_to :
      (p q : FilePath) (s : State) {s' : State}
      → rename p q s ≡ some s'
      → contents s' q ≡ contents s p
  pub rename_ne :
      (p q : FilePath) (s : State) {s' : State}
      → rename p q s ≡ some s'
      → (r : FilePath) → p ≢ r
      → q ≢ r
      → contents s' r ≡ contents s r
  pub read-eq :
      (p : FilePath) (offset count : ℕ) (s : State) {out : List ℕ}
      → read p offset count s ≡ some out
      → (bytes : List ℕ) × (contents s p ≡ some bytes)
        × (offset < max_offset)
        × (length (take count (drop offset bytes)) ≡ count)
        × (out ≡ take count (drop offset bytes))

-- A read of bytes that a file has, or of no bytes at all, succeeds.
pub record IsReadable (fs : FileSystem) : Type 0 where
  pub read_total :
      (p : FilePath) (offset count : ℕ) (s : fs.State) {bytes : List ℕ}
      → fs.contents s p ≡ some bytes
      → offset < max_offset
      → length (take count (drop offset bytes)) ≡ count
      → fs.read p offset count s ≡ some (take count (drop offset bytes))
