-- ===== src/Table/ManifestStore/Committed.antt =====
-- What a write, a delete and a commit of table/manifest_store.go leave in the store.
use golance_db.Prelude.{
  ◌≡◌, ◌≢◌, refl, sym, ap, ◌∙◌, Option, some, Result, ok, err, panic, Bool-cases, inl, inr,
  version_conflict, Error, ok-injective,
}
use golance_db.Prelude.Int.{ℤ, IsInt64, eqb_ℤ, eqb_ℤ→eq}
use golance_db.Prelude.Stateful.{lift, look, ran, ran_look, resume, >>=-frame}
use golance_db.Bytes.{Bytes}
use mathlib.Core.Path.{subst}
use golance_db.Text.{FilePath, format_int}
use golance_db.Text.RoundTrip.{parse_int-format_int, trim_space-format_int}
use golance_db.Storage.Store.{Store, StoreLaws}
use golance_db.Table.Types.{Manifest}
use golance_db.Table.ManifestStore.{
  ManifestJson, manifest_path, latest_path, read_latest, read_manifest,
}
use golance_db.Table.ManifestStore.Updates.{write_manifest, commit, commit_after}
use golance_db.Table.ManifestStore.Files.{
  Survives, IsStored, read_manifest-IsStored, manifest_path-injective, manifest_path-ne-latest_path,
}

refused :
    {W A : Type 0} {w w' : W} {a : A} {why : Error}
    → ◌≡◌ {A = Result A × W} (err why, w) (ok a, w')
    → ⊥
refused e = cc

pair_of : {A B : Type 0} (p : A × B) {a : A} {b : B} → p.0 ≡ a → p.1 ≡ b → p ≡ (a, b)
pair_of (a, b) e f = cc

module _ {W : Type 0} (store : Store W) (base : FilePath) (json : ManifestJson) where
  after_read :
      (m : Manifest) (expected : ℤ) (r : Result ℤ) (w : W)
      → r ≢ ok expected
      → let p = resume (commit_after store base json m expected) (r, w) in
        (p.1 ≡ w) × (p.0 ≢ ok tt) × ((current : ℤ) → r ≡ ok current → p.0 ≡ err version_conflict)
  unfolding commit_after
  after_read m expected (ok v) w h = elim (Bool-cases (eqb_ℤ v expected)) [
    | inl same ↦ absurd (h (ap ok (eqb_ℤ→eq v expected same)))
    | inr differ ↦ rw differ (refl, λ e. cc, λ current e. refl)
  ]
  after_read m expected (err why) w h = (refl, λ e. cc, λ current e. cc)
  after_read m expected panic w h = (refl, λ e. cc, λ current e. cc)

  -- Where `ReadLatest` does not return the version that is expected, `Commit` fails and changes
  -- nothing; where it returns another version, the error is `ErrConflict`.
  pub commit_conflict :
      (m : Manifest) (expected : ℤ) (w : W)
      → read_latest store base w ≢ ok expected
      → ((commit store base json m expected w).1 ≡ w)
        × ((commit store base json m expected w).0 ≢ ok tt)
        × ((current : ℤ)
            → read_latest store base w ≡ ok current
            → (commit store base json m expected w).0 ≡ err version_conflict)
  unfolding commit
  commit_conflict m expected w h = after_read m expected (read_latest store base w) w h

  module _ (content : FilePath → W → Option Bytes) (laws : StoreLaws store content) where
    -- `Write` leaves every other file.
    pub write_manifest_frame :
        (m : Manifest) (q : FilePath) (w : W)
        → q ≢ manifest_path base m.version
        → content q (write_manifest store base json m w).1 ≡ content q w
    unfolding write_manifest
    write_manifest_frame m q w ne =
        >>=-frame (content q) (lift (json.marshal m)) (store.write (manifest_path base m.version))
          (λ b v. laws.write_frame _ _ b v ne) w

    -- The versions of the two manifests are two.
    module _ (m u : Manifest) (hm : IsInt64 m.version) (hu : IsInt64 u.version)
        (ne : u.version ≢ m.version) where
      abbrev other_file : W → Option Bytes
      other_file = content (manifest_path base u.version)

      write_keeps : (w : W) → other_file (write_manifest store base json m w).1 ≡ other_file w
      write_keeps w =
          write_manifest_frame m (manifest_path base u.version) w
            (λ e. ne (manifest_path-injective base u.version m.version hu hm e))

      pub commit_after_keeps :
          (expected current : ℤ) (w : W)
          → other_file (commit_after store base json m expected current w).1 ≡ other_file w
      unfolding commit_after
      commit_after_keeps expected current w = elim (Bool-cases (eqb_ℤ current expected)) [
        | inl same ↦ rw same (
            >>=-frame other_file (write_manifest store base json m)
              (λ _. store.write (latest_path base) (format_int m.version))
              (λ _ v. laws.write_frame _ _ _ v (manifest_path-ne-latest_path base u.version)) w
            ∙ write_keeps w)
        | inr differ ↦ rw differ refl
      ]

      -- Over a store that keeps its promises and with int64 versions: whatever comes of `Commit`,
      -- a manifest of another version that was in its file, and survives its JSON form, is read
      -- from there still.
      pub read_manifest-commit_other :
          (expected : ℤ) (w : W)
          → Survives json u
          → IsStored store base content laws json w u
          → read_manifest store base json u.version (commit store base json m expected w).1 ≡ ok u
      unfolding commit
      read_manifest-commit_other expected w j (b, made, at) =
          read_manifest-IsStored store base content laws json _ u j (
            b,
            made,
            >>=-frame other_file (look (read_latest store base))
                  (commit_after store base json m expected) (commit_after_keeps expected) w
                ∙ at,
          )

    written-IsStored :
        (m : Manifest) (w w' : W)
        → write_manifest store base json m w ≡ (ok tt, w')
        → IsStored store base content laws json w' m
    unfolding write_manifest
    written-IsStored m w w' h =
        let (b, made, wrote) =
          ran_look (λ _. json.marshal m) (store.write (manifest_path base m.version)) w h in
        (b, made, laws.written _ b w w' wrote)

    -- After `Write` succeeds, `Read` at the version of the manifest returns the manifest.
    pub read_manifest-write_manifest :
        (m : Manifest) (w w' : W)
        → Survives json m
        → write_manifest store base json m w ≡ (ok tt, w')
        → read_manifest store base json m.version w' ≡ ok m
    read_manifest-write_manifest m w w' j h =
        read_manifest-IsStored store base content laws json w' m j (written-IsStored m w w' h)

    -- What the file `_latest` says is read back.
    latest_written :
        (v : ℤ) (w : W)
        → IsInt64 v
        → content (latest_path base) w ≡ some (format_int v)
        → read_latest store base w ≡ ok v
    unfolding read_latest
    latest_written v w range at =
        rw
          (
            laws.exists_lem _ w _ at,
            laws.size_lem _ w _ at,
            laws.read_lem _ w _ at,
            trim_space-format_int v,
            parse_int-format_int v range,
          )
          refl

    module _ (m : Manifest) (expected : ℤ) (current : ℤ) (w w' : W) where
      abbrev Committed : Type 0
      Committed =
          (current ≡ expected)
          × (content (latest_path base) w' ≡ some (format_int m.version))
          × IsStored store base content laws json w' m

      after_write :
          current ≡ expected
          → (v : W) → IsStored store base content laws json v m
          → store.write (latest_path base) (format_int m.version) v ≡ (ok tt, w')
          → Committed
      after_write same v (b, made, at) h = (
        same,
        laws.written _ _ v w' h,
        (
          b,
          made,
          subst (λ u. content (manifest_path base m.version) u ≡ some b) (ap (λ p. p.1) h)
              (laws.write_frame _ _ _ v (manifest_path-ne-latest_path base m.version) ∙ at),
        ),
      )

      commit_after_inv : commit_after store base json m expected current w ≡ (ok tt, w') → Committed
      unfolding commit_after
      commit_after_inv h = elim (Bool-cases (eqb_ℤ current expected)) [
        | inl same ↦
            let (u, v, made, wrote) =
              ran (write_manifest store base json m)
                (λ _. store.write (latest_path base) (format_int m.version)) w (rw same at h) in
            after_write (eqb_ℤ→eq current expected same) v (written-IsStored m w v made) wrote
        | inr differ ↦ absurd (refused (rw differ at h))
      ]

    -- Over a store that keeps its promises, where `Commit` succeeds on a manifest with an int64
    -- version that survives its JSON form, the latest version was the one that is expected, it
    -- is the manifest's from then on, and the manifest is read from its file.
    pub commit_sound :
        (m : Manifest) (expected : ℤ) (w w' : W)
        → Survives json m
        → IsInt64 m.version
        → commit store base json m expected w ≡ (ok tt, w')
        → (read_latest store base w ≡ ok expected)
          × (read_latest store base w' ≡ ok m.version)
          × (read_manifest store base json m.version w' ≡ ok m)
    unfolding commit
    commit_sound m expected w w' j range h =
        let (current, was, h') =
          ran_look (read_latest store base) (commit_after store base json m expected) w h in
        let (same, latest, stored) = commit_after_inv m expected current w w' h' in
        (
          was ∙ ap ok same,
          latest_written m.version w' range latest,
          read_manifest-IsStored store base content laws json w' m j stored,
        )

    -- Over a store that keeps its promises, of two commits that expect the same version, the one
    -- that comes after a success is refused with `ErrConflict` and changes nothing, where the
    -- first moved the version on to an int64 by a manifest that survives its JSON form.
    pub commit-commit :
        (m n : Manifest) (expected : ℤ) (w w' : W)
        → Survives json m
        → IsInt64 m.version
        → m.version ≢ expected
        → commit store base json m expected w ≡ (ok tt, w')
        → commit store base json n expected w' ≡ (err version_conflict, w')
    commit-commit m n expected w w' j range moved h =
        let (_, latest, _) = commit_sound m expected w w' j range h in
        let (same, _, refused) =
          commit_conflict n expected w' (λ e. moved (ok-injective (sym latest ∙ e))) in
        pair_of (commit store base json n expected w') (refused m.version latest) same
