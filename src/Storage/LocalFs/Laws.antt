-- ===== src/Storage/LocalFs/Laws.antt =====
-- The store on local files keeps what a store promises, if the operating system does.
use golance_db.Prelude.{
  ℕ, zero, suc, ◌≡◌, ◌≢◌, false, List, [], ◌∷◌, ◌++◌, Option, none, some, Result, ok, err, panic,
  length, get_elem?, All, refl, ◌∙◌, arith, inl, inr, Bool-cases, All_imp, lt→ltb,
}
use golance_db.Prelude.Int.{ℤ, pos}
use golance_db.Prelude.Stateful.{ran, >>=-frame}
use golance_db.Bytes.{Bytes}
use golance_db.Text.{FilePath, join, parent, append-injective}
use golance_db.Storage.Store.{StoreLaws, IsFileOf}
use golance_db.Storage.LocalFs.{
  Os, DirEntry, file_entries, local_fs, local_read, local_write, local_list, read_open, listed,
}
use mathlib.Core.List.{append_assoc}

-- The documented behaviour of the calls, by the content of each file: a directory is never a file.
pub record OsLaws {D F : Type 0} (os : Os D F) (file : FilePath → D → Option Bytes) : Type 0 where
  pub stat_file :
      (p : FilePath) (d : D) (b : Bytes) → file p d ≡ some b → os.stat p d ≡ ok (pos (length b))
  pub stat_dir :
      (p : FilePath) (name : Bytes) (d : D) (b : Bytes)
      → file (join p name) d ≡ some b
      → (n : ℤ) × (os.stat p d ≡ ok n)
  pub open_read :
      (p : FilePath) (d : D) (b : Bytes)
      → file p d ≡ some b
      → (f : F) × (os.open_file p d ≡ ok f) × (os.read_at f (length b) (pos 0) d ≡ ok b)
  pub mkdir_frame : (p q : FilePath) (d : D) → file q (os.mkdir_all p d).1 ≡ file q d
  pub file_written :
      (p : FilePath) (b : Bytes) (d d' : D) → os.write_file p b d ≡ (ok tt, d') → file p d' ≡ some b
  pub file_frame :
      (p q : FilePath) (b : Bytes) (d : D) → q ≢ p → file q (os.write_file p b d).1 ≡ file q d
  pub removed : (p : FilePath) (d d' : D) → os.remove p d ≡ (ok tt, d') → file p d' ≡ none
  pub remove_frame : (p q : FilePath) (d : D) → q ≢ p → file q (os.remove p d).1 ≡ file q d
  pub entries_sound :
      (p : FilePath) (d : D) (es : List DirEntry)
      → os.read_dir p d ≡ ok es
      → All (λ e. e.is_dir ≡ false → (b : Bytes) × (file (join p e.name) d ≡ some b)) es
  pub entries_complete :
      (p : FilePath) (name : Bytes) (d : D) (b : Bytes)
      → file (join p name) d ≡ some b
      → (es : List DirEntry) × (i : ℕ) × (os.read_dir p d ≡ ok es)
        × (get_elem? es i ≡ some (record { name = name; is_dir = false }))

file_entries-get_elem? :
    (dir : FilePath) (name : Bytes) (es : List DirEntry) (i : ℕ)
    → get_elem? es i ≡ some (record { name = name; is_dir = false })
    → (j : ℕ) × (get_elem? (file_entries dir es) j ≡ some (join dir name))
unfolding file_entries
file_entries-get_elem? dir name [] i h = cc
file_entries-get_elem? dir name (e ∷ es) zero h =
    let e' : e ≡ record { name = name; is_dir = false } = cc in rw e' (0, refl)
file_entries-get_elem? dir name (e ∷ es) (suc i) h =
    let (j, q) = file_entries-get_elem? dir name es i h in
    elim (Bool-cases e.is_dir) [ inl d ↦ rw d (j, q) | inr f ↦ rw f (suc j, q) ]

file_entries-All :
    (dir : FilePath) (P : FilePath → Type 0) (es : List DirEntry)
    → All (λ e. e.is_dir ≡ false → P (join dir e.name)) es
    → All P (file_entries dir es)
unfolding file_entries
file_entries-All dir P [] h = tt
file_entries-All dir P (e ∷ es) h = elim (Bool-cases e.is_dir) [
  | inl d ↦ rw d (file_entries-All dir P es h.1)
  | inr f ↦ rw f (h.0 f, file_entries-All dir P es h.1)
]

listed_inv :
    (dir : FilePath) (r : Result (List DirEntry)) {ps : List FilePath}
    → listed dir r ≡ ok ps
    → (es : List DirEntry) × (r ≡ ok es) × (ps ≡ file_entries dir es)
listed_inv dir (ok es) h = (es, refl, cc)
listed_inv dir (err why) h = cc
listed_inv dir panic h = cc

module _ {D F : Type 0} (os : Os D F) (file : FilePath → D → Option Bytes) (laws : OsLaws os file)
    (root : FilePath) where
  -- The files of the store: those below the root
  abbrev pub under_root : FilePath → D → Option Bytes
  under_root p d = file (root ++ p) d

  joined :
      (dir : FilePath) (name : Bytes) (d : D) {b : Bytes}
      → under_root (join dir name) d ≡ some b
      → file (join (root ++ dir) name) d ≡ some b
  joined dir name d h = rw append_assoc h

  read_bytes :
      (f : F) (d : D) (b : Bytes)
      → os.read_at f (length b) (pos 0) d ≡ ok b
      → read_open os root false (length b) (pos 0) d (ok f) ≡ ok b
  read_bytes f d [] h = refl
  read_bytes f d (x ∷ b) h = rw (h, lt→ltb 0 (suc (length b)) (omega arith)) refl

  other : {p q : FilePath} → q ≢ p → root ++ q ≢ root ++ p
  other h e = h (append-injective root e)

  read_back :
      (p : FilePath) (d : D) (b : Bytes)
      → under_root p d ≡ some b
      → local_read os root false p (pos 0) (pos (length b)) d ≡ ok b
  unfolding local_read
  read_back p d b h =
      let (f, opened, got) = laws.open_read (root ++ p) d b h in rw opened (read_bytes f d b got)

  wrote :
      (p : FilePath) (b : Bytes) (d d' : D)
      → local_write os root false p b d ≡ (ok tt, d')
      → under_root p d' ≡ some b
  unfolding local_write
  wrote p b d d' h =
      let (u, v, made, e) =
        ran (os.mkdir_all (parent (root ++ p))) (λ _. os.write_file (root ++ p) b) d h in
      laws.file_written (root ++ p) b v d' e

  write_elsewhere :
      (p q : FilePath) (b : Bytes) (d : D)
      → q ≢ p
      → under_root q (local_write os root false p b d).1 ≡ under_root q d
  unfolding local_write
  write_elsewhere p q b d h =
      >>=-frame (under_root q) (os.mkdir_all (parent (root ++ p)))
        (λ _. os.write_file (root ++ p) b)
        (λ u v. laws.file_frame (root ++ p) (root ++ q) b v (other h)) d
      ∙ laws.mkdir_frame (parent (root ++ p)) (root ++ q) d

  listed_sound :
      (dir : FilePath) (d : D) (ps : List FilePath)
      → local_list os root false dir d ≡ ok ps
      → All (IsFileOf under_root d dir) ps
  unfolding local_list
  listed_sound dir d ps h =
      let (es, read, e) = listed_inv dir (os.read_dir (root ++ dir) d) h in
      rw e (
        file_entries-All dir (IsFileOf under_root d dir) es (
          All_imp
            (λ e. e.is_dir ≡ false → (b : Bytes) × (file (join (root ++ dir) e.name) d ≡ some b))
            (λ e. e.is_dir ≡ false → IsFileOf under_root d dir (join dir e.name))
            (λ e found plain.
              let (b, at) = found plain in (e.name, b, refl, rw (← append_assoc) at))
            es (laws.entries_sound (root ++ dir) d es read)))

  listed_complete :
      (dir : FilePath) (name : Bytes) (d : D) (b : Bytes)
      → under_root (join dir name) d ≡ some b
      → (ps : List FilePath) × (i : ℕ) × (local_list os root false dir d ≡ ok ps)
        × (get_elem? ps i ≡ some (join dir name))
  unfolding local_list
  listed_complete dir name d b h =
      let (es, i, read, at) = laws.entries_complete (root ++ dir) name d b (joined dir name d h) in
      let (j, q) = file_entries-get_elem? dir name es i at in
      (file_entries dir es, j, rw read refl, q)

  -- Over an operating system that keeps its promises and while the context is live, LocalFS keeps what
  -- is promised of a `Store`, the files being those under its root.
  pub local_fs-StoreLaws : StoreLaws (local_fs os root false) under_root
  unfolding local_fs
  local_fs-StoreLaws = record {
    size_lem = λ p w b h. laws.stat_file (root ++ p) w b h;
    read_lem = read_back;
    exists_lem = λ p w b h. rw (laws.stat_file (root ++ p) w b h) refl;
    exists_dir = λ dir name w b h.
        let (n, e) = laws.stat_dir (root ++ dir) name w b (joined dir name w h) in rw e refl;
    written = wrote;
    write_frame = write_elsewhere;
    deleted = λ p w w' h. laws.removed (root ++ p) w w' h;
    delete_frame = λ p q w h. laws.remove_frame (root ++ p) (root ++ q) w (other h);
    list_sound = listed_sound;
    list_complete = listed_complete;
  }
