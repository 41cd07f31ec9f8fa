-- ===== src/Config.antt =====
-- config/config.go: the configuration, its checks, and its file. The JSON form and the calls of Go's
-- `os` package are parameters, and so is how a string is read as a path.
pub mod Checks
use golance_db.Prelude.{
  ◌≡◌, Bool, true, false, List, [], ◌∷◌, Result, ok, err, panic, if◌then◌else◌, Error, bad_config,
  unknown_backend, not_implemented,
}
use golance_db.Prelude.Int.{ℤ, pos}
use golance_db.Prelude.Stateful.{Io, done, lift, ◌>>=◌, ◌>>◌}
use golance_db.Bytes.{Bytes}
use golance_db.Text.{FilePath, parent}
use golance_db.Storage.Store.{Store}
use golance_db.Storage.LocalFs.{Os, local_fs, is_not_exist}

-- `unset` is the empty string, `unknown` any string but the names of the backends.
pub data BackendType : Type 0 where
  unset local fuse s3 : BackendType
  unknown : Bytes → BackendType

pub record S3Config : Type 0 where
  pub endpoint : Bytes
  pub bucket : Bytes
  pub region : Bytes
  pub access_key_id : Bytes
  pub secret_access_key : Bytes

pub record StorageConfig : Type 0 where
  pub backend : BackendType
  pub local_root : Bytes
  pub s3 : S3Config
  pub mount_point : Bytes
  pub buffer_pool_size : ℤ

pub record Config : Type 0 where
  pub path : Bytes
  pub storage : StorageConfig

-- "./golancedb_data"
abbrev pub default_path : Bytes
default_path =
    b'.' ∷ b'/' ∷ b'g' ∷ b'o' ∷ b'l' ∷ b'a' ∷ b'n' ∷ b'c' ∷ b'e' ∷ b'd' ∷ b'b' ∷ b'_' ∷ b'd' ∷ b'a'
    ∷ b't' ∷ b'a' ∷ []

unfoldable pub default_config : Config
default_config = record {
  path = default_path;
  storage = record {
    backend = local;
    local_root = [];
    s3 = record {
      endpoint = [];
      bucket = [];
      region = [];
      access_key_id = [];
      secret_access_key = [];
    };
    mount_point = [];
    buffer_pool_size = pos 0;
  };
}

-- A field that must not be empty
abbrev pub needed : Bytes → Result (Unit {0})
needed [] = err bad_config
needed (x ∷ xs) = ok tt

-- The `switch` of `Validate`
unfoldable pub validate_backend : BackendType → StorageConfig → Result (Unit {0})
validate_backend unset s = ok tt
validate_backend local s = ok tt
validate_backend fuse s = needed s.mount_point
validate_backend s3 s = golance_db.Prelude.◌>>◌ (needed s.s3.bucket) (needed s.s3.region)
validate_backend (unknown b) s = err unknown_backend

unfoldable pub validate : Config → Result (Unit {0})
unfolding validate_backend
validate c = golance_db.Prelude.◌>>◌ (needed c.path) (validate_backend c.storage.backend c.storage)

-- `parts` splits a string into the parts of a path.
module _ {D F : Type 0} (os : Os D F) (parts : Bytes → FilePath) (stopped : Bool) where
  abbrev pub store_at : Bytes → Store D
  store_at root = local_fs os (parts root) stopped

  -- The `switch` of `NewStore`
  unfoldable pub backend_store : BackendType → StorageConfig → Result (Store D)
  backend_store unset s = ok (store_at s.local_root)
  backend_store local s = ok (store_at s.local_root)
  backend_store fuse s =
      golance_db.Prelude.◌>>◌ (needed s.mount_point) (ok (store_at s.mount_point))
  backend_store s3 s =
      golance_db.Prelude.◌>>◌ (needed s.s3.bucket)
        (golance_db.Prelude.◌>>◌ (needed s.s3.region) (err not_implemented))
  backend_store (unknown b) s = err unknown_backend

  unfoldable pub new_store : Config → Result (Store D)
  unfolding backend_store
  new_store c = backend_store c.storage.backend c.storage

-- `json.MarshalIndent` of a configuration, and `json.Unmarshal` into one
pub record ConfigJson : Type 0 where
  pub marshal : Config → Result Bytes
  pub unmarshal : Config → Bytes → Result Config

-- What `Load` makes of the result of `os.ReadFile`
unfoldable pub loaded : ConfigJson → Result Bytes → Result Config
unfolding default_config is_not_exist
loaded json (ok bytes) = json.unmarshal default_config bytes
loaded json (err why) = if is_not_exist why then ok default_config else err why
loaded json panic = panic

unfoldable pub load :
    {D : Type 0} → ConfigJson → (FilePath → D → Result Bytes) → FilePath → D → Result Config
unfolding loaded
load json read_file path d = loaded json (read_file path d)

-- A path of one part has "." as its directory, which is not made.
abbrev pub make_parent : {D F : Type 0} → Os D F → FilePath → Io D (Unit {0})
make_parent os [] = done tt
make_parent os (p ∷ ps) = os.mkdir_all (p ∷ ps)

unfoldable pub save : {D F : Type 0} → ConfigJson → Os D F → Config → FilePath → Io D (Unit {0})
save json os c path = do
  make_parent os (parent path)
  bytes ← lift (json.marshal c)
  os.write_file path bytes
