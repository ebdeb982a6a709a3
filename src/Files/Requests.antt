-- ===== src/Files/Requests.antt =====
-- The requests that change files keep what active rows can be read, in
-- apps/api/src/modules/system/file/file.service.ts.
use zhuo_stack.Prelude.{
  ℕ, ◌≡◌, refl, sym, ap, subst, ◌∙◌, inl, inr, true, not, ◌&&◌, List, [], ◌∷◌, String, ◌==◌, arith,
  eqb, length, In, Bool-cases, eq_iff, zero, suc,
}
use zhuo_stack.Prelude.Keyed.{Distinct}
use zhuo_stack.Prelude.Action.{
  Action, Result, gets, not_found, pure, ◌>>=◌, >>=-run, >>=-stop, throw_if-stop, throw_if-pass,
}
use zhuo_stack.Database.Table.{Table}
use zhuo_stack.Notifications.Query.{one_of, distinct}
use zhuo_stack.Trees.Depth.{filter-In}
use zhuo_stack.Guards.{is_active}
use zhuo_stack.Files.Keys.{UriCodec}
use zhuo_stack.Files.Storage.{Backend, StorageConfig}
use zhuo_stack.Files.{
  SysFile, FileActor, UpdateFileDto, FileConfig, Inspector, file_id, may_access, get_storage_key,
  change_files, find_one, update, updated_file, remove_files, remove, remove_batch,
}
use zhuo_stack.Files.Rows.{same_row, W, rows_of}
use zhuo_stack.Files.Places.{KeepsOnFailure}
use zhuo_stack.Files.Intact.{Intact, AllApart, From-Intact, remove_files-Intact}
use zhuo_stack.Files.Changes.{Same, Hidden, changed-From}
use zhuo_stack.Files.Ownership.{
  FileRequest, updates, removes, removes_batch, act, find_one-Searched,
}

module _ (uri : UriCodec) (backend : Backend) (without_scheme : String → String)
    (storage : StorageConfig) (inspector : Inspector backend.Bytes) (config : FileConfig)
    (file_table : Table SysFile) where
  abbrev Here : Type 0
  Here = W uri backend without_scheme storage inspector config file_table

  abbrev rows : Here → List SysFile
  rows = rows_of uri backend without_scheme storage inspector config file_table

  abbrev I : Here → Type 0
  I = Intact uri backend without_scheme storage inspector config file_table

  updated_file-Same :
      (dto : UpdateFileDto) (r : SysFile)
      → Same uri backend without_scheme storage inspector config file_table (updated_file dto r) r
  unfolding get_storage_key
  updated_file-Same dto r = (refl, λ s. refl)

  update-Intact :
      (id : String) (dto : UpdateFileDto) (g : SysFile) (w : Here)
      → Distinct file_id (rows w)
      → In g (rows w)
      → (g.id == id && is_active g.status) ≡ true
      → I w
      → I
          (change_files uri backend without_scheme storage inspector config file_table
            (λ x. x.id == id)
            (updated_file dto)
            w).1
  update-Intact id dto g w d stands fits intact =
      From-Intact uri backend without_scheme storage inspector config file_table [] w _ intact
        (rw (file_table.rows-update_many (λ x. x.id == id) (updated_file dto) w.files) (
          changed-From uri backend without_scheme storage inspector config file_table (rows w)
            (λ r q. r ≡ q)
            (Hidden uri backend without_scheme storage inspector config file_table [])
            (λ x. x.id == id) (updated_file dto) (rows w) (updated_file-Same dto)
            (λ r q at same e hit on.
              (active_of q at (ap (λ (x : SysFile). x.id) (sym e) ∙ (eq_iff r.id id).0 hit), refl))
            (λ r q e misses on. (subst (λ z. is_active z.status ≡ true) e on, refl))
            (λ r at. (r, at, (refl, λ s. refl), refl))))
        (λ q at apart. refl)
    where
      active_of : (q : SysFile) → In q (rows w) → q.id ≡ id → is_active q.status ≡ true
      active_of q at e =
          let g_id : (g.id == id) ≡ true = ground (arith, fits) in
          subst (λ z. is_active z.status ≡ true)
            (same_row (rows w) g q d stands at ((eq_iff g.id id).0 g_id ∙ sym e))
            (ground (arith, fits))

  abbrev Run : Type 0 → Type 0
  Run A = Result A × Here

  -- What follows a search keeps the rows readable.
  found-Intact :
      {A : Type 0} (id : String) (actor : FileActor) (k : SysFile → Action Here A) (w : Here)
      → ((g : SysFile) → In g (rows w) → (g.id == id && is_active g.status) ≡ true → I (k g w).1)
      → I w
      → I
          ((find_one uri backend without_scheme storage inspector config file_table id actor >>= k)
            w).1
  found-Intact id actor k w keeps intact =
      elim (find_one-Searched uri backend without_scheme storage inspector config file_table id
        actor w) [
          | inl (e, failed) ↦
              subst (λ (r : Run _). I r.1)
                (sym (
                  >>=-stop
                    (find_one uri backend without_scheme storage inspector config file_table id
                      actor)
                    k w failed))
                intact
          | inr (g, there, fits, may, found) ↦
              subst (λ (r : Run _). I r.1)
                (sym (
                  >>=-run
                    (find_one uri backend without_scheme storage inspector config file_table id
                      actor)
                    k w found))
                (keeps g there fits)
        ]

  only : (f g : SysFile) → In f (g ∷ []) → g ≡ f
  only f g (zero, e) = ground arith
  only f g (suc i, e) = absurd (ground arith)

  -- A request that updates a file, or removes one or several, keeps every active file readable,
  -- where ids differ, files of different ids lie at different places and a deletion that is refused
  -- leaves the object: whatever the storage refuses, and whether or not the database deletes the
  -- rows.
  pub act-Intact :
      (request : FileRequest) (actor : FileActor) (w : Here)
      → KeepsOnFailure uri backend without_scheme storage
      → Distinct file_id (rows w)
      → AllApart uri backend without_scheme storage inspector config file_table w
      → Intact uri backend without_scheme storage inspector config file_table w
      → Intact uri backend without_scheme storage inspector config file_table
          (act uri backend without_scheme storage inspector config file_table request actor w)
  unfolding update remove remove_batch
  act-Intact (updates id dto) actor w keeps d apart intact =
      found-Intact id actor _ w
        (λ g there fits.
          subst (λ (r : Run SysFile). I r.1)
            (sym (
              >>=-run
                (change_files uri backend without_scheme storage inspector config file_table
                  (λ x. x.id == id) (updated_file dto))
                (λ _. pure (updated_file dto g)) w refl))
            (update-Intact id dto g w d there fits intact))
        intact
  act-Intact (removes deletes id) actor w keeps d apart intact =
      found-Intact id actor _ w
        (λ g there fits.
          remove_files-Intact uri backend without_scheme storage inspector config file_table deletes
            (g ∷ []) w keeps d apart
            (λ f at.
              subst (λ z. In z (rows w) × (is_active z.status ≡ true)) (only f g at)
                (there, ground (arith, fits)))
            intact)
        intact
  act-Intact (removes_batch deletes ids) actor w keeps d apart intact =
      let p = λ (x : SysFile). one_of ids x.id && (is_active x.status && may_access actor x) in
      let found = file_table.find_many p w.files in
      subst (λ (r : Run ℕ). I r.1)
        (sym (>>=-run (gets (λ v. file_table.find_many p v.files)) _ w refl))
        (elim (Bool-cases (not (eqb (length found) (length (distinct ids))))) [
          | inl e ↦
              subst (λ (r : Run ℕ). I r.1)
                (sym (
                  throw_if-stop _ (not_found "部分文件不存在或无权删除")
                    (remove_files uri backend without_scheme storage inspector config file_table
                      deletes found)
                    w e))
                intact
          | inr e ↦
              subst (λ (r : Run ℕ). I r.1)
                (sym (
                  throw_if-pass _ (not_found "部分文件不存在或无权删除")
                    (remove_files uri backend without_scheme storage inspector config file_table
                      deletes found)
                    w e))
                (remove_files-Intact uri backend without_scheme storage inspector config file_table
                  deletes found w keeps d apart
                  (λ f at.
                    let (there, fits) =
                      filter-In p (rows w) f
                        (subst (λ xs. In f xs) (file_table.find_many-rows p w.files) at) in
                    (there, ground (arith, fits)))
                  intact)
        ])
