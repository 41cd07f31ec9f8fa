-- ===== src/Examples/Config.antt =====
-- The checks of a configuration of a mounted file system.
use golance_db.Prelude.{◌≡◌, ◌≢◌, ◌↔◌, false, ok, [], ◌∷◌}
use golance_db.Prelude.Int.{pos}
use golance_db.Bytes.{Bytes}
use golance_db.Text.{FilePath}
use golance_db.Config.{Config, new_store, validate}
use golance_db.Config.BackendType.{fuse, s3}
use golance_db.Config.Checks.{validate-new_store, Makes}
use golance_db.Examples.Disk.{memory}

abbrev mounted : Config
mounted = record {
  path = b'd' ∷ [];
  storage = record {
    backend = fuse;
    local_root = [];
    s3 = record {
      endpoint = [];
      bucket = [];
      region = [];
      access_key_id = [];
      secret_access_key = [];
    };
    mount_point = b'm' ∷ [];
    buffer_pool_size = pos 0;
  };
}

abbrev one_part : Bytes → FilePath
one_part b = b ∷ []

path_given : mounted.path ≢ []
path_given e = cc

validate-new_store_example :
    ((validate mounted ≡ ok tt) × (fuse ≢ s3)) ↔ Makes (new_store memory one_part false mounted)
validate-new_store_example = validate-new_store memory one_part false mounted path_given
