-- ===== src/Files/Rows.antt =====
-- What the statements of apps/api/src/modules/system/file/file.service.ts do to one row.
use zhuo_stack.Prelude.{
  ◌≡◌, refl, sym, ap, subst, ◌∙◌, inl, inr, Bool, true, false, not, some, List, [], ◌∷◌, map,
  String, ◌==◌, arith, if◌then◌else◌, suc, find?, In, In-map, In-filter_keep, any-In,
  In-map_inverse, Bool-cases, eq_iff,
}
use zhuo_stack.Prelude.Keyed.{Distinct, find, find_of_get}
use zhuo_stack.Prelude.Action.{
  Keeps, >>=-Keeps, throw_if-Keeps, or_throw, or_throw-Keeps, modify_state,
}
use zhuo_stack.Database.Table.{Table}
use zhuo_stack.Notifications.Query.{one_of}
use zhuo_stack.Guards.{active}
use zhuo_stack.Files.Keys.{UriCodec}
use zhuo_stack.Files.Storage.{Backend, StorageConfig}
use zhuo_stack.Files.{
  SysFile, FileConfig, Inspector, FileWorld, file_id, on_objects, change_files, ids_where, is_empty,
  settle_rows, remove_files,
}

pub find-In :
    {A : Type 0} (p : A → Bool) (xs : List A) (x : A) → find? p xs ≡ some x → In x xs × (p x ≡ true)
find-In p [] x h = absurd (ground arith)
find-In p (y ∷ ys) x h = elim (Bool-cases (p y)) [
  | inl e ↦ ((0, ground arith), ground arith)
  | inr e ↦ let ((i, at), q) = find-In p ys x (ground arith) in ((suc i, at), q)
]

-- Where ids are distinct, a row is known by its id.
pub same_row :
    (rows : List SysFile) (f g : SysFile)
    → Distinct file_id rows
    → In f rows
    → In g rows
    → f.id ≡ g.id
    → f ≡ g
same_row rows f g d (i, a) (j, b) e =
    let p = find_of_get file_id rows i f d a in
    let q = find_of_get file_id rows j g d b in
    let r : find file_id f.id rows ≡ some g = subst (λ k. find file_id k rows ≡ some g) (sym e) q in
    ground arith

pub one_of-ids :
    (fs : List SysFile) (id : String)
    → one_of (map (λ g. g.id) fs) id ≡ true
    → (g : SysFile) × In g fs × (g.id ≡ id)
one_of-ids fs id h =
    let (x, at, e) = any-In (λ x. x == id) (map (λ (g : SysFile). g.id) fs) h in
    let (g, there, same) = In-map_inverse (λ (g : SysFile). g.id) fs x at in
    (g, there, same ∙ (eq_iff x id).0 e)

module _ (uri : UriCodec) (backend : Backend) (without_scheme : String → String)
    (storage : StorageConfig) (inspector : Inspector backend.Bytes) (config : FileConfig)
    (file_table : Table SysFile) where
  abbrev pub W : Type 0
  W = FileWorld uri backend without_scheme storage inspector config file_table

  abbrev pub rows_of : W → List SysFile
  rows_of w = file_table.rows w.files

  -- The row stands in the table as it was.
  abbrev pub Holds : SysFile → W → Type 0
  Holds f w = In f (rows_of w)

  pub change_files-Keeps :
      (f : SysFile) (p : SysFile → Bool) (g : SysFile → SysFile)
      → p f ≡ false
      → Keeps
          (Holds f)
          (change_files uri backend without_scheme storage inspector config file_table p g)
  change_files-Keeps f p g apart w h = rw (file_table.rows-update_many p g w.files) (
      subst (λ x. In x (map (λ r. if p r then g r else r) (rows_of w))) (by apart)
        (In-map (λ r. if p r then g r else r) (rows_of w) f h))
    where
      by : p f ≡ false → (if p f then g f else f) ≡ f
      by e = rw e refl

  pub ids_where-absent :
      (wanted : Bool) (fs : List SysFile) (bs : List Bool) (id : String)
      → one_of (map (λ g. g.id) fs) id ≡ false
      → one_of
          (ids_where uri backend without_scheme storage inspector config file_table wanted fs bs)
          id
        ≡ false
  ids_where-absent wanted [] bs id h = refl
  ids_where-absent wanted (f ∷ fs) [] id h = refl
  ids_where-absent wanted (f ∷ fs) (b ∷ bs) id h =
      chosen (if b then wanted else not wanted)
        (ids_where-absent wanted fs bs id (ground (arith, h)))
    where
      chosen :
          (c : Bool)
          → one_of
              (ids_where uri backend without_scheme storage inspector config file_table wanted fs
                bs)
              id
            ≡ false
          → one_of
              (if c
                then f.id
                  ∷ ids_where uri backend without_scheme storage inspector config file_table wanted
                      fs bs
                else ids_where uri backend without_scheme storage inspector config file_table wanted
                    fs bs)
              id
            ≡ false
      chosen true e = ground (arith, e, h)
      chosen false e = e

  -- Statements that leave out a row keep it.
  pub settle_rows-Keeps :
      (f : SysFile) (deletes : Bool) (fs : List SysFile) (outcomes : List Bool)
      → one_of (map (λ g. g.id) fs) f.id ≡ false
      → Keeps (Holds f) (
          settle_rows uri backend without_scheme storage inspector config file_table deletes fs
            outcomes)
  unfolding settle_rows
  settle_rows-Keeps f deletes fs outcomes apart =
      let successful =
        ids_where uri backend without_scheme storage inspector config file_table true fs outcomes in
      let failed =
        ids_where uri backend without_scheme storage inspector config file_table false fs
          outcomes in
      >>=-Keeps (Holds f) _ _ (throw_if-Keeps (Holds f) _ _) (λ _.
        >>=-Keeps (Holds f) _ _ (deleted successful (ids_where-absent true fs outcomes f.id apart))
          (λ _.
            >>=-Keeps (Holds f) _ _
              (restored failed (ids_where-absent false fs outcomes f.id apart))
              (λ _. >>=-Keeps (Holds f) _ _ (throw_if-Keeps (Holds f) _ _) (λ _ w h. h))))
    where
      deleted :
          (ids : List String)
          → one_of ids f.id ≡ false
          → Keeps (Holds f) (
              modify_state {W = W} (λ w. record w {
                files =
                    if is_empty uri backend without_scheme storage inspector config file_table ids
                    then w.files
                    else file_table.delete_many (λ g. one_of ids g.id) w.files;
              }))
      deleted [] e w h = h
      deleted (id ∷ ids) e w h =
          rw (file_table.rows-delete_many (λ g. one_of (id ∷ ids) g.id) w.files)
            (In-filter_keep (λ g. not (one_of (id ∷ ids) g.id)) (rows_of w) f h (ap not e))

      restored :
          (ids : List String)
          → one_of ids f.id ≡ false
          → Keeps (Holds f) (
              modify_state {W = W} (λ w. record w {
                files =
                    if is_empty uri backend without_scheme storage inspector config file_table ids
                    then w.files
                    else file_table.update_many
                        (λ g. one_of ids g.id)
                        (λ g. record g { status = active })
                        w.files;
              }))
      restored [] e w h = h
      restored (id ∷ ids) e w h =
          change_files-Keeps f (λ g. one_of (id ∷ ids) g.id) (λ g. record g { status = active }) e w
            h

  pub remove_files-Keeps :
      (f : SysFile) (deletes : Bool) (fs : List SysFile)
      → one_of (map (λ g. g.id) fs) f.id ≡ false
      → Keeps
          (Holds f)
          (remove_files uri backend without_scheme storage inspector config file_table deletes fs)
  unfolding remove_files on_objects
  remove_files-Keeps f deletes fs apart =
      >>=-Keeps (Holds f) _ _ (change_files-Keeps f _ _ (ground (arith, apart))) (λ _.
        >>=-Keeps (Holds f) _ _ (λ w h. h)
          (λ outcomes.
            >>=-Keeps (Holds f) (or_throw outcomes _) _ (or_throw-Keeps (Holds f) outcomes _)
              (λ known. settle_rows-Keeps f deletes fs known apart)))
