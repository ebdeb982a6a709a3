-- ===== src/Files/Hiding.antt =====
-- A removal that fails part of the way, in
-- apps/api/src/modules/system/file/file.service.ts.
use zhuo_stack.Prelude.{
  ℕ, ◌≡◌, refl, sym, ap, subst, ◌∙◌, Bool, true, ◌&&◌, Option, none, some, List, [], ◌∷◌, map,
  String, ◌==◌, arith, eq_refl, if◌then◌else◌, In, In-map,
}
use zhuo_stack.Prelude.Action.{Result, err, internal, or_throw, ◌>>=◌, >>=-run}
use zhuo_stack.Database.Table.{Table}
use zhuo_stack.Notifications.Query.{one_of}
use zhuo_stack.Guards.{inactive, is_active}
use zhuo_stack.Files.Keys.{UriCodec}
use zhuo_stack.Files.Storage.{delete, Backend, StorageConfig}
use zhuo_stack.Files.{
  SysFile, FileActor, FileConfig, Inspector, may_access, get_storage_key, find_one, on_objects,
  delete_objects, settle_rows, remove_files, remove,
}
use zhuo_stack.Files.Download.{find_one-run}
use zhuo_stack.Files.Rows.{find-In, W, rows_of}

module _ (uri : UriCodec) (backend : Backend) (without_scheme : String → String)
    (storage : StorageConfig) (inspector : Inspector backend.Bytes) (config : FileConfig)
    (file_table : Table SysFile) where
  abbrev Here : Type 0
  Here = W uri backend without_scheme storage inspector config file_table

  abbrev rows : Here → List SysFile
  rows = rows_of uri backend without_scheme storage inspector config file_table

  abbrev Run : Type 0
  Run = Result ℕ × Here

  stopped :
      (f : SysFile) (w : Here)
      → get_storage_key uri storage.url_prefix f ≡ none
      → delete_objects uri backend without_scheme storage inspector config file_table
          (f ∷ [])
          w.objects
        ≡ (none, w.objects)
  unfolding delete_objects
  stopped f w e = by (get_storage_key uri storage.url_prefix f) e
    where
      by :
          (o : Option String)
          → o ≡ none
          → ◌≡◌ {A = Option (List Bool) × backend.State}
              (elim o as (λ _. Option (List Bool) × backend.State) [
                | none ↦ (none, w.objects)
                | some key ↦
                    (let (done, s') =
                        delete uri backend without_scheme storage f.storage_type key w.objects in
                      (some (done ∷ []), s'))
              ])
              (none, w.objects)
      by o e = rw e refl

  remove_files-malformed :
      (deletes : Bool) (f : SysFile) (w : Here)
      → get_storage_key uri storage.url_prefix f ≡ none
      → remove_files uri backend without_scheme storage inspector config file_table deletes
          (f ∷ [])
          w
        ≡ (
          err (internal "URI malformed"),
          record w {
            files =
                file_table.update_many
                  (λ x. one_of (f.id ∷ []) x.id && is_active x.status)
                  (λ x. record x { status = inactive })
                  w.files;
          },
        )
  unfolding remove_files on_objects ◌>>=◌
  remove_files-malformed deletes f w e =
      ap
        (λ (d : Option (List Bool) × backend.State).
          (or_throw {W = Here} d.0 (internal "URI malformed") >>= (λ known.
              settle_rows uri backend without_scheme storage inspector config file_table deletes
                (f ∷ []) known))
            (record w {
              files =
                  file_table.update_many (λ x. one_of (f.id ∷ []) x.id && is_active x.status)
                    (λ x. record x { status = inactive }) w.files;
              objects = d.1;
            }))
        (stopped f w e)

  -- The removal, by an actor who may access it, of an active file whose address cannot be decoded
  -- fails, and leaves the row hidden.
  pub remove-hidden :
      (deletes : Bool) (id : String) (actor : FileActor) (w : Here) (f : SysFile)
      → file_table.find_first (λ x. x.id == id && is_active x.status) w.files ≡ some f
      → may_access actor f ≡ true
      → get_storage_key uri storage.url_prefix f ≡ none
      → ((remove uri backend without_scheme storage inspector config file_table deletes id actor
            w).0
          ≡ err (internal "URI malformed"))
        × In
            (record f { status = inactive })
            (rows
              (remove uri backend without_scheme storage inspector config file_table deletes id
                actor w).1)
  unfolding remove
  remove-hidden deletes id actor w f found may malformed =
      let p = λ (x : SysFile). one_of (f.id ∷ []) x.id && is_active x.status in
      let run =
        >>=-run (find_one uri backend without_scheme storage inspector config file_table id actor)
          (λ g.
            remove_files uri backend without_scheme storage inspector config file_table deletes
              (g ∷ []))
          w
          (find_one-run uri backend without_scheme storage inspector config file_table id actor f w
            found may)
        ∙ remove_files-malformed deletes f w malformed in
      let (there, fits) =
        find-In (λ x. x.id == id && is_active x.status) (rows w) f
          (sym (file_table.find_first-rows _ w.files) ∙ found) in
      let hit : p f ≡ true = ground (arith, fits, eq_refl f.id) in
      (
        ap (λ (r : Run). r.0) run,
        subst (λ (r : Run). In (record f { status = inactive }) (rows r.1)) (sym run)
            (rw (file_table.rows-update_many p (λ x. record x { status = inactive }) w.files) (
              subst
                (λ z. In z (map (λ x. if p x then record x { status = inactive } else x) (rows w)))
                (chosen (p f) hit)
                (In-map (λ x. if p x then record x { status = inactive } else x) (rows w) f
                  there))),
      )
    where
      chosen :
          (b : Bool)
          → b ≡ true
          → (if b then record f { status = inactive } else f) ≡ record f { status = inactive }
      chosen b e = rw e refl
