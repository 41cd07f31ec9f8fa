-- ===== src/Table/FragmentWriter/Columns.antt =====
-- The files that `WriteBatch` of table/fragment_writer.go leaves, column by column.
use golance_db.Prelude.{
  ◌≡◌, ◌≢◌, refl, sym, ap, ◌∙◌, List, [], ◌∷◌, ◌++◌, Option, none, some, ok, ok-injective, false,
  length, drop, All, Bool-cases, inl, inr, if◌then◌else◌,
}
use golance_db.Prelude.Int.{ℤ, pos, eqb_ℤ, eqb_ℤ→eq, eqb_ℤ_refl, IsInt64}
use golance_db.Prelude.Dict.{keys, Distinct}
use golance_db.Prelude.Stateful.{ran, ran_look, ran_world}
use golance_db.Bytes.{Bytes}
use mathlib.Core.Path.{subst}
use golance_db.Text.{FilePath, join-injective}
use golance_db.Text.RoundTrip.{format_int-append_injective}
use golance_db.Storage.Store.{Store, StoreLaws}
use golance_db.Encode.Types.{Column}
use golance_db.Encode.Compression.{Codec}
use golance_db.Encode.MiniBlock.{encode}
use golance_db.Table.Types.{Field, DataFile, type_of, field_by_id}
use golance_db.Query.Reader.{find_data_file}
use golance_db.Table.FragmentWriter.{
  FragmentWriter, add_file, column_path, infer_num_rows, write_column, write_batch, found,
}

none-ne-some : {A : Type 0} {a : A} → none ≢ some a
none-ne-some e = cc

-- The look-up of a file in a list to which another column's file is appended
find-append_old :
    (dfs : List DataFile) (df new : DataFile) (id : ℤ)
    → find_data_file dfs id ≡ some df
    → find_data_file (dfs ++ new ∷ []) id ≡ some df
unfolding find_data_file
find-append_old [] df new id h = cc
find-append_old (x ∷ dfs) df new id h = elim (Bool-cases (eqb_ℤ x.column_id id)) [
  | inl e ↦ rw e (rw e at h)
  | inr e ↦ rw e (find-append_old dfs df new id (rw e at h))
]

find-append_new :
    (dfs : List DataFile) (new : DataFile) (id : ℤ)
    → find_data_file dfs id ≡ none
    → find_data_file (dfs ++ new ∷ []) id ≡ (if eqb_ℤ new.column_id id then some new else none)
unfolding find_data_file
find-append_new [] new id h = refl
find-append_new (x ∷ dfs) new id h = elim (Bool-cases (eqb_ℤ x.column_id id)) [
  | inl e ↦ absurd (none-ne-some (sym (rw e at h)))
  | inr e ↦ rw e (find-append_new dfs new id (rw e at h))
]

found_inv : (o : Option Field) {f : Field} → found o ≡ ok f → o ≡ some f
found_inv none h = cc
found_inv (some f) h = cc

eqb_ℤ-ne : (a b : ℤ) → a ≢ b → eqb_ℤ a b ≡ false
eqb_ℤ-ne a b h = elim (Bool-cases (eqb_ℤ a b)) [ inl e ↦ absurd (h (eqb_ℤ→eq a b e)) | inr e ↦ e ]

module _ {W : Type 0} (c : Codec) (store : Store W) (content : FilePath → W → Option Bytes)
    (laws : StoreLaws store content) where
  -- What a successful `WriteColumn` did
  abbrev Wrote : ℤ → Column → W → FragmentWriter → W × FragmentWriter → Type 0
  Wrote id values w fw s =
      (f : Field) × (page : Bytes) × (v : W) × (rows : ℤ) × (field_by_id fw.schema id ≡ some f)
      × (encode c fw.encoder values (type_of f) ≡ ok page)
      × (store.write (column_path fw.base_path id) page w ≡ (ok tt, v))
      × (infer_num_rows values f ≡ ok rows)
      × (s ≡ (v, add_file (column_path fw.base_path id) id rows (pos (length page)) fw))

  write_column_inv :
      (id : ℤ) (values : Column) (w : W) (fw : FragmentWriter) (s : W × FragmentWriter)
      → write_column c store id values (w, fw) ≡ (ok tt, s)
      → Wrote id values w fw s
  unfolding write_column
  write_column_inv id values w fw s h =
      let (f, known, h1) = ran_look (λ _. found (field_by_id fw.schema id)) _ (w, fw) h in
      let (page, made, h2) = ran_look (λ _. encode c fw.encoder values (type_of f)) _ (w, fw) h1 in
      let (u, v, wrote, h3) =
        ran_world (store.write (column_path fw.base_path id) page) _ w fw h2 in
      let at = laws.written _ page w v wrote in
      let (size, sized, h4) =
        ran_look (λ t. store.size (column_path fw.base_path id) t.0) _ (v, fw) h3 in
      let (rows, counted, h5) = ran_look (λ _. infer_num_rows values f) _ (v, fw) h4 in
      (
        f,
        page,
        v,
        rows,
        found_inv (field_by_id fw.schema id) known,
        made,
        wrote,
        counted,
        sym (ap (λ p. p.1) h5)
            ∙ ap (λ (n : ℤ). (v, add_file (column_path fw.base_path id) id rows n fw))
                (ok-injective (sym sized ∙ laws.size_lem _ v page at)),
      )

  -- The file of a column holds its page.
  abbrev pub HasPage : W → FragmentWriter → ℤ → Bytes → Type 0
  HasPage w fw id page =
      (df : DataFile) × (find_data_file fw.data_files id ≡ some df)
      × (df.path ≡ column_path fw.base_path id)
      × (df.file_size ≡ pos (length page))
      × (content (column_path fw.base_path id) w ≡ some page)

  column_path-injective :
      (base : FilePath) (i j : ℤ)
      → IsInt64 i
      → IsInt64 j
      → column_path base i ≡ column_path base j
      → i ≡ j
  unfolding column_path
  column_path-injective base i j hi hj e =
      format_int-append_injective i j _ hi hj (ap (drop 4) (join-injective base e))

  new_page :
      (id rows : ℤ) (page : Bytes) (w : W) (fw : FragmentWriter)
      → find_data_file fw.data_files id ≡ none
      → content (column_path fw.base_path id) w ≡ some page
      → HasPage w (add_file (column_path fw.base_path id) id rows (pos (length page)) fw) id page
  unfolding add_file
  new_page id rows page w fw absent at = (
    record {
      path = column_path fw.base_path id;
      column_id = id;
      num_rows = rows;
      file_size = pos (length page);
    },
    find-append_new fw.data_files _ id absent ∙ rw (eqb_ℤ_refl id) refl,
    refl,
    refl,
    at,
  )

  old_page :
      (id other rows : ℤ) (new page : Bytes) (w v : W) (fw : FragmentWriter)
      → IsInt64 id
      → IsInt64 other
      → other ≢ id
      → store.write (column_path fw.base_path id) new w ≡ (ok tt, v)
      → HasPage w fw other page
      → HasPage v (add_file (column_path fw.base_path id) id rows (pos (length new)) fw) other page
  unfolding add_file
  old_page id other rows new page w v fw hi ho ne wrote (df, there, path, size, at) = (
    df,
    find-append_old fw.data_files df _ other there,
    path,
    size,
    subst (λ u. content (column_path fw.base_path other) u ≡ some page) (ap (λ p. p.1) wrote)
        (laws.write_frame _ _ new w (λ e. ne (column_path-injective fw.base_path other id ho hi e))
          ∙ at),
  )

  still_absent :
      (id other rows : ℤ) (path : FilePath) (size : ℤ) (fw : FragmentWriter)
      → other ≢ id
      → find_data_file fw.data_files other ≡ none
      → find_data_file (add_file path id rows size fw).data_files other ≡ none
  unfolding add_file
  still_absent id other rows path size fw ne absent =
      find-append_new fw.data_files _ other absent ∙ rw (eqb_ℤ-ne id other (λ e. ne (sym e))) refl

  -- A page is still there after columns of other ids are written.
  batch_keeps :
      (columns : List (ℤ × Column)) (id : ℤ) (page : Bytes) (w : W) (fw : FragmentWriter)
      (s : W × FragmentWriter)
      → IsInt64 id
      → All IsInt64 (keys columns)
      → All (λ k. k ≢ id) (keys columns)
      → write_batch c store columns (w, fw) ≡ (ok tt, s)
      → HasPage w fw id page
      → HasPage s.0 s.1 id page
  unfolding write_batch
  batch_keeps [] id page w fw s hi ints others h p =
      subst (λ t. HasPage t.0 t.1 id page) (ap (λ q. q.1) h) p
  batch_keeps ((k, values) ∷ columns) id page w fw s hi ints others h p =
      let (u, s1, first, h1) =
        ran (write_column c store k values) (λ _. write_batch c store columns) (w, fw) h in
      let (f, new, v, rows, known, made, wrote, counted, e) =
        write_column_inv k values w fw s1 first in
      batch_keeps columns id page v
        (add_file (column_path fw.base_path k) k rows (pos (length new)) fw) s hi ints.1 others.1
        (subst (λ t. write_batch c store columns t ≡ (ok tt, s)) e h1)
        (old_page k id rows new page w v fw ints.0 hi (λ e. others.0 (sym e)) wrote p)

  -- The directory of the fragment stays.
  pub batch_base :
      (columns : List (ℤ × Column)) (w : W) (fw : FragmentWriter) (s : W × FragmentWriter)
      → write_batch c store columns (w, fw) ≡ (ok tt, s)
      → s.1.base_path ≡ fw.base_path
  unfolding write_batch
  batch_base [] w fw s h = ap (λ q. q.1.1.base_path) (sym h)
  batch_base ((k, values) ∷ columns) w fw s h =
      let (u, s1, first, h1) =
        ran (write_column c store k values) (λ _. write_batch c store columns) (w, fw) h in
      let (f, new, v, rows, known, made, wrote, counted, e) =
        write_column_inv k values w fw s1 first in
      batch_base columns v (add_file (column_path fw.base_path k) k rows (pos (length new)) fw) s
        (subst (λ t. write_batch c store columns t ≡ (ok tt, s)) e h1)

  all_absent :
      (id rows : ℤ) (path : FilePath) (size : ℤ) (fw : FragmentWriter) (ids : List ℤ)
      → All (λ k. k ≢ id) ids
      → All (λ k. find_data_file fw.data_files k ≡ none) ids
      → All (λ k. find_data_file (add_file path id rows size fw).data_files k ≡ none) ids
  all_absent id rows path size fw [] ne absent = tt
  all_absent id rows path size fw (k ∷ ids) ne absent = (
    still_absent id k rows path size fw ne.0 absent.0,
    all_absent id rows path size fw ids ne.1 absent.1,
  )

  -- What the file of a column is after all
  abbrev pub IsWritten : FragmentWriter → W × FragmentWriter → ℤ × Column → Type 0
  IsWritten fw s (id, values) =
      (f : Field) × (page : Bytes) × (field_by_id fw.schema id ≡ some f)
      × (encode c fw.encoder values (type_of f) ≡ ok page)
      × HasPage s.0 s.1 id page

  pub batch-IsWritten :
      (columns : List (ℤ × Column)) (w : W) (fw : FragmentWriter) (s : W × FragmentWriter)
      → All IsInt64 (keys columns)
      → Distinct (keys columns)
      → All (λ k. find_data_file fw.data_files k ≡ none) (keys columns)
      → write_batch c store columns (w, fw) ≡ (ok tt, s)
      → All (IsWritten fw s) columns
  unfolding write_batch
  batch-IsWritten [] w fw s ints distinct absent h = tt
  batch-IsWritten ((k, values) ∷ columns) w fw s ints distinct absent h =
      let (u, s1, first, h1) =
        ran (write_column c store k values) (λ _. write_batch c store columns) (w, fw) h in
      let (f, page, v, rows, known, made, wrote, counted, e) =
        write_column_inv k values w fw s1 first in
      let fw1 = add_file (column_path fw.base_path k) k rows (pos (length page)) fw in
      let h2 : write_batch c store columns (v, fw1) ≡ (ok tt, s) =
        subst (λ t. write_batch c store columns t ≡ (ok tt, s)) e h1 in
      let here = new_page k rows page v fw absent.0 (laws.written _ page w v wrote) in
      (
        (f, page, known, made, batch_keeps columns k page v fw1 s ints.0 ints.1 distinct.0 h2 here),
        batch-IsWritten columns v fw1 s ints.1 distinct.1
            (all_absent k rows _ _ fw (keys columns) distinct.0 absent.1) h2,
      )
