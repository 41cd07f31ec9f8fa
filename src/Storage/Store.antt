-- ===== src/Storage/Store.antt =====
-- storage/object_store.go: the interface behind which all tables and manifests are stored, and what
-- its users rely on. `OpenWrite`, which nothing in the repository calls, is left out.
use golance_db.Prelude.{
  ℕ, ◌≡◌, ◌≢◌, Bool, true, List, Option, none, some, Result, ok, length, get_elem?, All,
}
use golance_db.Prelude.Int.{ℤ, pos}
use golance_db.Prelude.Stateful.{Io}
use golance_db.Bytes.{Bytes}
use golance_db.Text.{FilePath, join}

-- `Store`, over the state W of what is stored
pub record Store (W : Type 0) : Type 0 where
  pub read : FilePath → ℤ → ℤ → W → Result Bytes
  pub write : FilePath → Bytes → Io W (Unit {0})
  pub delete : FilePath → Io W (Unit {0})
  pub exists : FilePath → W → Result Bool
  pub list : FilePath → W → Result (List FilePath)
  pub size : FilePath → W → Result ℤ

-- The files that an index into the listing of a directory names are files of it.
abbrev pub IsFileOf :
    {W : Type 0} → (FilePath → W → Option Bytes) → W → FilePath → FilePath → Type 0
IsFileOf content w dir p =
    (name : Bytes) × (b : Bytes) × (p ≡ join dir name) × (content p w ≡ some b)

-- The documented behaviour of a store, by the content of each file. A write or a delete may fail,
-- and may then leave anything at its own path; a file that is there can be read.
pub record StoreLaws {W : Type 0} (s : Store W) (content : FilePath → W → Option Bytes)
    : Type 0 where
  pub size_lem :
      (p : FilePath) (w : W) (b : Bytes) → content p w ≡ some b → s.size p w ≡ ok (pos (length b))
  pub read_lem :
      (p : FilePath) (w : W) (b : Bytes)
      → content p w ≡ some b
      → s.read p (pos 0) (pos (length b)) w ≡ ok b
  pub exists_lem :
      (p : FilePath) (w : W) (b : Bytes) → content p w ≡ some b → s.exists p w ≡ ok true
  pub exists_dir :
      (dir : FilePath) (name : Bytes) (w : W) (b : Bytes)
      → content (join dir name) w ≡ some b
      → s.exists dir w ≡ ok true
  pub written :
      (p : FilePath) (b : Bytes) (w w' : W) → s.write p b w ≡ (ok tt, w') → content p w' ≡ some b
  pub write_frame :
      (p q : FilePath) (b : Bytes) (w : W) → q ≢ p → content q (s.write p b w).1 ≡ content q w
  pub deleted : (p : FilePath) (w w' : W) → s.delete p w ≡ (ok tt, w') → content p w' ≡ none
  pub delete_frame : (p q : FilePath) (w : W) → q ≢ p → content q (s.delete p w).1 ≡ content q w
  pub list_sound :
      (dir : FilePath) (w : W) (ps : List FilePath)
      → s.list dir w ≡ ok ps
      → All (IsFileOf content w dir) ps
  pub list_complete :
      (dir : FilePath) (name : Bytes) (w : W) (b : Bytes)
      → content (join dir name) w ≡ some b
      → (ps : List FilePath) × (i : ℕ) × (s.list dir w ≡ ok ps)
        × (get_elem? ps i ≡ some (join dir name))
