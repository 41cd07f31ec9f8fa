-- ===== src/Storage/LocalFs.antt =====
-- storage/local_fs.go: the store on a directory of the local file system. The calls of Go's `os`
-- package are the parameters `Os`, over the state D of the disk; `stopped` is whether `ctx.Err()`
-- reports that the context is done.
pub mod Laws
use golance_db.Prelude.{
  ℕ, zero, suc, ◌≡◌, ◌≢◌, ◌≤◌, ◌+◌, Bool, true, false, List, [], ◌∷◌, ◌++◌, Option, none, some,
  Result, ok, err, panic, length, take, drop, get_elem?, All, if◌then◌else◌, ltb, replicate,
  canceled, invalid_length, not_exist, Error,
}
use golance_db.Prelude.Int.{ℤ, pos, negsuc}
use golance_db.Prelude.Stateful.{Io, done, lift, look, ◌>>=◌, ◌>>◌}
use golance_db.Bytes.{Bytes}
use golance_db.Text.{FilePath, join, parent}
use golance_db.Storage.Store.{Store}

-- `os.DirEntry` by its name and `IsDir`
pub record DirEntry : Type 0 where
  pub name : Bytes
  pub is_dir : Bool

-- `os.Open` gives a handle of type F, from which `ReadAt` fills a buffer of n bytes or fails. Of
-- what `os.Stat` returns only the size is used.
pub record Os (D F : Type 0) : Type 0 where
  pub open_file : FilePath → D → Result F
  pub read_at : F → ℕ → ℤ → D → Result Bytes
  pub mkdir_all : FilePath → Io D (Unit {0})
  pub write_file : FilePath → Bytes → Io D (Unit {0})
  pub remove : FilePath → Io D (Unit {0})
  pub stat : FilePath → D → Result ℤ
  pub read_dir : FilePath → D → Result (List DirEntry)

-- `os.IsNotExist`
unfoldable pub is_not_exist : Error → Bool
is_not_exist not_exist = true
is_not_exist why = false

unfoldable pub resolve : FilePath → FilePath → FilePath
resolve root path = root ++ path

-- What `Exists` makes of the result of `os.Stat`
unfoldable pub stat_exists : Result ℤ → Result Bool
unfolding is_not_exist
stat_exists (ok size) = ok true
stat_exists (err why) = if is_not_exist why then ok false else err why
stat_exists panic = panic

-- The loop of `List` over the entries
unfoldable pub file_entries : FilePath → List DirEntry → List FilePath
file_entries dir [] = []
file_entries dir (e ∷ es) =
    let rest = file_entries dir es in if e.is_dir then rest else join dir e.name ∷ rest

abbrev pub listed : FilePath → Result (List DirEntry) → Result (List FilePath)
listed dir (ok es) = ok (file_entries dir es)
listed dir (err why) = err why
listed dir panic = panic

module _ {D F : Type 0} (os : Os D F) (root : FilePath) (stopped : Bool) where
  -- `if err := ctx.Err(); err != nil`, before every call
  abbrev pub guarded : {A : Type 0} → (D → Result A) → D → Result A
  guarded call d = if stopped then err canceled else call d

  -- `ReadAt` is left out at length 0.
  abbrev pub read_open : ℕ → ℤ → D → Result F → Result Bytes
  read_open n offset d (ok f) = if ltb 0 n then os.read_at f n offset d else ok (replicate n 0)
  read_open n offset d (err why) = err why
  read_open n offset d panic = panic

  unfoldable pub local_read : FilePath → ℤ → ℤ → D → Result Bytes
  unfolding resolve
  local_read path offset (pos n) =
      guarded (λ d. read_open n offset d (os.open_file (resolve root path) d))
  local_read path offset (negsuc n) = guarded (λ d. err invalid_length)

  unfoldable pub local_write : FilePath → Bytes → Io D (Unit {0})
  unfolding resolve
  local_write path bytes d =
      if stopped
      then lift (err canceled) d
      else (do os.mkdir_all (parent (resolve root path)); os.write_file (resolve root path) bytes) d

  unfoldable pub local_delete : FilePath → Io D (Unit {0})
  unfolding resolve
  local_delete path d = if stopped then lift (err canceled) d else os.remove (resolve root path) d

  unfoldable pub local_exists : FilePath → D → Result Bool
  unfolding resolve stat_exists
  local_exists path = guarded (λ d. stat_exists (os.stat (resolve root path) d))

  unfoldable pub local_list : FilePath → D → Result (List FilePath)
  unfolding resolve
  local_list dir = guarded (λ d. listed dir (os.read_dir (resolve root dir) d))

  unfoldable pub local_size : FilePath → D → Result ℤ
  unfolding resolve
  local_size path = guarded (os.stat (resolve root path))

  -- `NewLocalFS`, with its methods
  unfoldable pub local_fs : Store D
  unfolding local_read local_write local_delete local_exists local_list local_size
  local_fs = record {
    read = local_read;
    write = local_write;
    delete = local_delete;
    exists = local_exists;
    list = local_list;
    size = local_size;
  }
