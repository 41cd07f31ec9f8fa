-- ===== src/Config/Checks.antt =====
-- What the checks of a configuration are worth: which stores can be made.
use golance_db.Prelude.{◌≡◌, ◌≢◌, ◌↔◌, Bool, List, [], ◌∷◌, Result, ok, err, ◌>>◌, refl, arith}
use golance_db.Bytes.{Bytes}
use golance_db.Text.{FilePath}
use golance_db.Storage.Store.{Store}
use golance_db.Storage.LocalFs.{Os}
use golance_db.Config.{
  BackendType, StorageConfig, Config, needed, validate, validate_backend, new_store, backend_store,
}
use golance_db.Config.BackendType.{unset, local, fuse, s3, unknown}

abbrev pub Makes : {A : Type 0} → Result A → Type 0
Makes {A} r = (a : A) × (r ≡ ok a)

needed_nonempty : (path : Bytes) → path ≢ [] → needed path ≡ ok tt
needed_nonempty [] h = absurd (h refl)
needed_nonempty (x ∷ xs) h = refl

module _ {D F : Type 0} (os : Os D F) (parts : Bytes → FilePath) (stopped : Bool) where
  needed-Makes :
      (b : Bytes) (s : Store D) → (needed b ≡ ok tt) ↔ Makes {A = Store D} (needed b >> ok s)
  needed-Makes [] s = (λ e. cc, λ p. let (a, e) = p in cc)
  needed-Makes (x ∷ xs) s = (λ e. (s, refl), λ p. refl)

  never_made :
      (b r : Bytes) (why : golance_db.Prelude.Error)
      → Makes {A = Store D} (needed b >> (needed r >> err why))
      → ⊥
  never_made [] r why (a, e) = cc
  never_made (x ∷ xs) [] why (a, e) = cc
  never_made (x ∷ xs) (y ∷ ys) why (a, e) = cc

  backend-Makes :
      (b : BackendType) (s : StorageConfig)
      → ((validate_backend b s ≡ ok tt) × (b ≢ s3)) ↔ Makes (backend_store os parts stopped b s)
  unfolding validate_backend backend_store
  backend-Makes unset s = (λ h. (_, refl), λ h. (refl, λ e. cc))
  backend-Makes local s = (λ h. (_, refl), λ h. (refl, λ e. cc))
  backend-Makes fuse s = (
    λ h. (needed-Makes s.mount_point _).0 h.0,
    λ h. ((needed-Makes s.mount_point _).1 h, λ e. cc),
  )
  backend-Makes s3 s =
      (λ h. absurd (h.1 refl), λ h. absurd (never_made s.s3.bucket s.s3.region _ h))
  backend-Makes (unknown b) s = (λ h. let (e, _) = h in cc, λ h. let (a, e) = h in cc)

  -- Of a configuration with a path, `NewStore` makes a store if and only if `Validate` accepts it and
  -- its backend is not S3.
  pub validate-new_store :
      (c : Config)
      → c.path ≢ []
      → ((validate c ≡ ok tt) × (c.storage.backend ≢ s3)) ↔ Makes (new_store os parts stopped c)
  unfolding validate new_store
  validate-new_store c h = rw (needed_nonempty c.path h) (backend-Makes c.storage.backend c.storage)
