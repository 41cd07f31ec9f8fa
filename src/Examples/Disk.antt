-- ===== src/Examples/Disk.antt =====
-- A disk in memory, which shows that the promises of the operating system can be kept: its state is
-- the list of its files, and a directory is there if a file is in it.
use golance_db.Prelude.{
  ℕ, suc, ◌≡◌, ◌≢◌, refl, sym, ap, ◌∙◌, Bool, true, false, List, [], ◌∷◌, Option, none, some,
  Result, ok, ok-injective, err, length, take, get_elem?, All, take_all, arith, if◌then◌else◌,
  not_exist, invalid_length, Bool-cases, inl, inr, Option-cases, ◌&&◌, ◌↔◌,
}
use golance_db.Prelude.Int.{ℤ, pos, negsuc}
use golance_db.Prelude.Stateful.{done}
use golance_db.Bytes.{Bytes, beq, beq_iff}
use golance_db.Text.{FilePath, join}
use golance_db.Storage.Store.{Store, StoreLaws}
use golance_db.Storage.LocalFs.{Os, DirEntry, local_fs}
use golance_db.Storage.LocalFs.Laws.{OsLaws, under_root, local_fs-StoreLaws}

abbrev pub Disk : Type 0
Disk = List (FilePath × Bytes)

abbrev pub path_eq : FilePath → FilePath → Bool
path_eq [] [] = true
path_eq [] (q ∷ qs) = false
path_eq (p ∷ ps) [] = false
path_eq (p ∷ ps) (q ∷ qs) = beq p q && path_eq ps qs

path_eq_iff : (p q : FilePath) → (path_eq p q ≡ true) ↔ (p ≡ q)
path_eq_iff [] [] = ground arith
path_eq_iff [] (q ∷ qs) = ground arith
path_eq_iff (p ∷ ps) [] = ground arith
path_eq_iff (p ∷ ps) (q ∷ qs) = ground (arith, beq_iff p q, path_eq_iff ps qs)

-- The newest file of a path stands first.
abbrev pub file : FilePath → Disk → Option Bytes
file q [] = none
file q ((p, b) ∷ d) = if path_eq p q then some b else file q d

-- The name of a file that is right below a directory
abbrev pub below : FilePath → FilePath → Option Bytes
below [] [] = none
below [] (n ∷ []) = some n
below [] (n ∷ m ∷ ns) = none
below (d ∷ ds) [] = none
below (d ∷ ds) (p ∷ ps) = if beq d p then below ds ps else none

abbrev pub add_entry : Option Bytes → List DirEntry → List DirEntry
add_entry none es = es
add_entry (some name) es = record { name = name; is_dir = false } ∷ es

abbrev pub entries : FilePath → Disk → List DirEntry
entries dir [] = []
entries dir ((p, b) ∷ d) = add_entry (below dir p) (entries dir d)

abbrev pub without : FilePath → Disk → Disk
without q [] = []
without q ((p, b) ∷ d) = let rest = without q d in if path_eq p q then rest else (p, b) ∷ rest

abbrev pub size_of : Option Bytes → List DirEntry → Result ℤ
size_of (some b) es = ok (pos (length b))
size_of none [] = err not_exist
size_of none (e ∷ es) = ok (pos 0)

abbrev pub opened : Option Bytes → Result Bytes
opened none = err not_exist
opened (some b) = ok b

abbrev pub part : Bytes → ℕ → ℤ → Disk → Result Bytes
part f n (pos offset) d = ok (take n f)
part f n (negsuc offset) d = err invalid_length

abbrev pub memory : Os Disk Bytes
memory = record {
  open_file = λ p d. opened (file p d);
  read_at = part;
  mkdir_all = λ p. done tt;
  write_file = λ p b d. (ok tt, (p, b) ∷ d);
  remove = λ p d. (ok tt, without p d);
  stat = λ p d. size_of (file p d) (entries p d);
  read_dir = λ p d. ok (entries p d);
}

below-join : (dir : FilePath) (name : Bytes) → below dir (join dir name) ≡ some name
below-join [] name = refl
below-join (d ∷ ds) name = rw ((beq_iff d d).1 refl) (below-join ds name)

none-ne-some : {A : Type 0} {a : A} → none ≢ some a
none-ne-some e = cc

below_inv : (dir p : FilePath) (name : Bytes) → below dir p ≡ some name → p ≡ join dir name
below_inv [] [] name h = cc
below_inv [] (n ∷ []) name h = cc
below_inv [] (n ∷ m ∷ ns) name h = cc
below_inv (d ∷ ds) [] name h = cc
below_inv (d ∷ ds) (p ∷ ps) name h = elim (Bool-cases (beq d p)) [
  | inl e ↦
      let same : d ≡ p = (beq_iff d p).0 e in
      let rest : ps ≡ join ds name = below_inv ds ps name (rw e at h) in
      ap (λ x. x ∷ ps) (sym same) ∙ ap (◌∷◌ d) rest
  | inr e ↦ absurd (none-ne-some (rw e at h))
]

entries-get_elem? :
    (dir : FilePath) (name : Bytes) (d : Disk) (b : Bytes)
    → file (join dir name) d ≡ some b
    → (i : ℕ) × (get_elem? (entries dir d) i ≡ some (record { name = name; is_dir = false }))
entries-get_elem? dir name [] b h = cc
entries-get_elem? dir name ((p, c) ∷ d) b h = elim (Bool-cases (path_eq p (join dir name))) [
  | inl e ↦
      (0, rw (ap (below dir) ((path_eq_iff p (join dir name)).0 e) ∙ below-join dir name) refl)
  | inr e ↦
      let (i, at) = entries-get_elem? dir name d b (rw e at h) in
      elim (Option-cases (below dir p)) [
        | inl no_entry ↦ (i, rw no_entry at)
        | inr (other, is) ↦ (suc i, rw is at)
      ]
]

entries_sound :
    (dir : FilePath) (d : Disk)
    → All
        (λ e. e.is_dir ≡ false → (b : Bytes) × (file (join dir e.name) d ≡ some b))
        (entries dir d)
entries_sound dir [] = tt
entries_sound dir ((p, c) ∷ d) = elim (Option-cases (below dir p)) [
  | inl no_entry ↦ rw no_entry (older (entries dir d) (entries_sound dir d))
  | inr (name, is) ↦ rw is (
    λ plain. (c, rw ((path_eq_iff p (join dir name)).1 (below_inv dir p name is)) refl),
    older (entries dir d) (entries_sound dir d),
  )
]
  where
    still :
        (q : FilePath)
        → ((b : Bytes) × (file q d ≡ some b))
        → (b : Bytes) × (file q ((p, c) ∷ d) ≡ some b)
    still q (b, e) = elim (Bool-cases (path_eq p q)) [
      | inl new ↦ (c, rw new refl)
      | inr old ↦ (b, rw old e)
    ]

    older :
        (es : List DirEntry)
        → All (λ e. e.is_dir ≡ false → (b : Bytes) × (file (join dir e.name) d ≡ some b)) es
        → All
            (λ e. e.is_dir ≡ false → (b : Bytes) × (file (join dir e.name) ((p, c) ∷ d) ≡ some b))
            es
    older [] h = tt
    older (e ∷ es) h = (λ plain. still (join dir e.name) (h.0 plain), older es h.1)

file-without_self : (q : FilePath) (d : Disk) → file q (without q d) ≡ none
file-without_self q [] = refl
file-without_self q ((p, b) ∷ d) = elim (Bool-cases (path_eq p q)) [
  | inl e ↦ rw e (file-without_self q d)
  | inr e ↦ rw e (rw e (file-without_self q d))
]

file-without_other : (q p : FilePath) (d : Disk) → p ≢ q → file p (without q d) ≡ file p d
file-without_other q p [] h = refl
file-without_other q p ((r, b) ∷ d) h =
    ground (arith, path_eq_iff r q, path_eq_iff r p, file-without_other q p d h)

stat_below :
    (dir : FilePath) (name : Bytes) (d : Disk) (b : Bytes)
    → file (join dir name) d ≡ some b
    → (n : ℤ) × (size_of (file dir d) (entries dir d) ≡ ok n)
stat_below dir name d b h =
    let (i, at) = entries-get_elem? dir name d b h in
    elim (Option-cases (file dir d)) [
      | inl no_file ↦ (pos 0, rw no_file (filled (entries dir d) i at))
      | inr (c, is) ↦ (pos (length c), rw is refl)
    ]
  where
    filled :
        (es : List DirEntry) (i : ℕ) {e : DirEntry}
        → get_elem? es i ≡ some e
        → size_of none es ≡ ok (pos 0)
    filled [] i h = cc
    filled (e ∷ es) i h = refl

pub memory-OsLaws : OsLaws memory file
memory-OsLaws = record {
  stat_file = λ p d b h. rw h refl;
  stat_dir = λ p name d b h. stat_below p name d b h;
  open_read = λ p d b h. (b, rw h refl, ap ok (take_all (length b) b (omega arith)));
  mkdir_frame = λ p q d. refl;
  file_written = λ p b d d' h. rw (← ap (λ r. r.1) h) (rw ((path_eq_iff p p).1 refl) refl);
  file_frame = λ p q b d h. ground (arith, path_eq_iff p q, h);
  removed = λ p d d' h. rw (← ap (λ r. r.1) h) (file-without_self p d);
  remove_frame = λ p q d h. file-without_other p q d h;
  entries_sound = λ p d es h. rw (← ok-injective h) (entries_sound p d);
  entries_complete =
      λ p name d b h. let (i, at) = entries-get_elem? p name d b h in (entries p d, i, refl, at);
}

-- The store on this disk, at the root
abbrev pub disk_store : Store Disk
disk_store = local_fs memory [] false

abbrev pub disk_content : FilePath → Disk → Option Bytes
disk_content = under_root memory file memory-OsLaws []

pub disk_laws : StoreLaws disk_store disk_content
disk_laws = local_fs-StoreLaws memory file memory-OsLaws []
