-- ===== src/Files/Ownership.antt =====
-- A user who is no administrator acts on no other user's files, in
-- apps/api/src/modules/system/file/file.service.ts.
use Prim.Native.String
use zhuo_stack.Prelude.{
  ℕ, ◌≡◌, refl, sym, ap, subst, ◌∙◌, inl, inr, Bool, true, false, not, ◌&&◌, none, some, List, [],
  ◌∷◌, map, String, ◌==◌, arith, ◌⊎◌, filter, In, Bool-cases, Option-cases, eq_iff, text_cases,
}
use zhuo_stack.Prelude.Keyed.{Distinct}
use zhuo_stack.Prelude.Action.{
  Error, >>=-run, >>=-stop, throw_if-stop, Action, Result, ok, err, Keeps, >>=-Keeps,
  throw_if-Keeps, or_throw, pure, gets, not_found, ◌>>=◌,
}
use zhuo_stack.Database.Table.{Table}
use zhuo_stack.Notifications.Query.{one_of}
use zhuo_stack.Trees.Depth.{filter-In}
use zhuo_stack.Guards.{is_active}
use zhuo_stack.Files.Keys.{UriCodec}
use zhuo_stack.Files.Storage.{Backend, StorageConfig}
use zhuo_stack.Files.{
  SysFile, FileActor, UpdateFileDto, FileConfig, Inspector, file_id, may_access, find_one, update,
  updated_file, remove, remove_batch,
}
use zhuo_stack.Files.Download.{find_one-run}
use zhuo_stack.Files.Rows.{
  find-In, same_row, one_of-ids, W, rows_of, Holds, change_files-Keeps, remove_files-Keeps,
}

-- What changes files; the flag is whether the database carries out a deletion.
pub data FileRequest : Type 0 where
  updates : String → UpdateFileDto → FileRequest
  removes : Bool → String → FileRequest
  removes_batch : Bool → List String → FileRequest

module _ (uri : UriCodec) (backend : Backend) (without_scheme : String → String)
    (storage : StorageConfig) (inspector : Inspector backend.Bytes) (config : FileConfig)
    (file_table : Table SysFile) where
  abbrev pub act :
      FileRequest
      → FileActor
      → W uri backend without_scheme storage inspector config file_table
      → W uri backend without_scheme storage inspector config file_table
  act (updates id dto) actor w =
      (update uri backend without_scheme storage inspector config file_table id dto actor w).1
  act (removes deletes id) actor w =
      (remove uri backend without_scheme storage inspector config file_table deletes id actor w).1
  act (removes_batch deletes ids) actor w =
      (remove_batch uri backend without_scheme storage inspector config file_table deletes ids actor
        w).1

  abbrev H : SysFile → W uri backend without_scheme storage inspector config file_table → Type 0
  H f w = Holds uri backend without_scheme storage inspector config file_table f w

  -- A search fails and changes nothing, or finds an active row that the actor may access.
  abbrev pub Searched :
      String → FileActor → W uri backend without_scheme storage inspector config file_table → Type 0
  Searched id actor w =
      ((e : Error) × (find_one uri backend without_scheme storage inspector config file_table id
            actor w
          ≡ (err e, w)))
      ⊎ ((g : SysFile) × In g
            (rows_of uri backend without_scheme storage inspector config file_table w)
          × ((g.id == id && is_active g.status) ≡ true)
          × (may_access actor g ≡ true)
          × (find_one uri backend without_scheme storage inspector config file_table id actor w
              ≡ (ok g, w)))

  pub find_one-Searched :
      (id : String) (actor : FileActor)
      (w : W uri backend without_scheme storage inspector config file_table)
      → Searched id actor w
  unfolding find_one
  find_one-Searched id actor w =
      let missing = not_found (String.◌++◌ "文件 " (String.◌++◌ id " 不存在")) in
      elim (Option-cases (file_table.find_first (λ x. x.id == id && is_active x.status) w.files)) [
        | inl e ↦ inl (
          missing,
          >>=-run
                (gets (λ v. file_table.find_first (λ x. x.id == id && is_active x.status) v.files))
                _ w (ap (λ o. (ok o, w)) e)
              ∙ >>=-stop (or_throw none missing) _ w refl,
        )
        | inr (g, e) ↦ elim (Bool-cases (may_access actor g)) [
          | inl may ↦
              let (there, fits) =
                find-In (λ x. x.id == id && is_active x.status)
                  (rows_of uri backend without_scheme storage inspector config file_table w) g
                  (sym (file_table.find_first-rows _ w.files) ∙ e) in
              inr (
                g,
                there,
                fits,
                may,
                find_one-run uri backend without_scheme storage inspector config file_table id actor
                    g w e may,
              )
          | inr not_his ↦ inl (
            missing,
            >>=-run
                  (gets
                    (λ v. file_table.find_first (λ x. x.id == id && is_active x.status) v.files))
                  _ w (ap (λ o. (ok o, w)) e)
                ∙ >>=-run (or_throw (some g) missing) _ w refl
                ∙ throw_if-stop (not (may_access actor g)) missing (pure g) w (ap not not_his),
          )
        ]
      ]

  other_id :
      (actor : FileActor) (f g : SysFile)
      (w : W uri backend without_scheme storage inspector config file_table)
      → Distinct file_id (rows_of uri backend without_scheme storage inspector config file_table w)
      → H f w
      → In g (rows_of uri backend without_scheme storage inspector config file_table w)
      → may_access actor f ≡ false
      → may_access actor g ≡ true
      → (g.id == f.id) ≡ false
  other_id actor f g w d hf hg off may = elim (text_cases g.id f.id) [
    | inr (b, _) ↦ b
    | inl (b, same) ↦
        let it =
          same_row (rows_of uri backend without_scheme storage inspector config file_table w) g f d
            hg hf same in
        let q : may_access actor f ≡ true = subst (λ x. may_access actor x ≡ true) it may in
        absurd (clash (may_access actor f) off q)
  ]
    where
      clash : (b : Bool) → b ≡ false → b ≡ true → ⊥
      clash b p q = ground arith

  -- Rows that the actor may access do not have the id of a row that he may not.
  others_absent :
      (actor : FileActor) (f : SysFile) (p : SysFile → Bool)
      (w : W uri backend without_scheme storage inspector config file_table)
      → Distinct file_id (rows_of uri backend without_scheme storage inspector config file_table w)
      → H f w
      → may_access actor f ≡ false
      → ((g : SysFile) → p g ≡ true → may_access actor g ≡ true)
      → (found : List SysFile)
      → found ≡ filter p (rows_of uri backend without_scheme storage inspector config file_table w)
      → one_of (map (λ (g : SysFile). g.id) found) f.id ≡ false
  others_absent actor f p w d h off his found are =
      elim (Bool-cases (one_of (map (λ (g : SysFile). g.id) found) f.id)) [
        | inr e ↦ e
        | inl e ↦
            let (g, at, same) = one_of-ids found f.id e in
            let (there, fits) =
              filter-In p (rows_of uri backend without_scheme storage inspector config file_table w)
                g (subst (λ xs. In g xs) are at) in
            let differ = other_id actor f g w d h there off (his g fits) in
            let equal = (eq_iff g.id f.id).1 same in absurd (ground (arith, differ, equal))
      ]

  -- What follows a search.
  found-Keeps :
      {A : Type 0} (id : String) (actor : FileActor) (f : SysFile)
      (k : SysFile → Action (W uri backend without_scheme storage inspector config file_table) A)
      (w : W uri backend without_scheme storage inspector config file_table)
      → ((g : SysFile) → (g.id == id) ≡ true → (g.id == f.id) ≡ false → Keeps (H f) (k g))
      → Distinct file_id (rows_of uri backend without_scheme storage inspector config file_table w)
      → may_access actor f ≡ false
      → H f w
      → H f
          ((find_one uri backend without_scheme storage inspector config file_table id actor >>= k)
            w).1
  found-Keeps id actor f k w keeps d off h = elim (find_one-Searched id actor w) [
    | inl (e, failed) ↦
        subst
          (λ (r : Result _ × W uri backend without_scheme storage inspector config file_table).
            H f r.1)
          (sym (
            >>=-stop
              (find_one uri backend without_scheme storage inspector config file_table id actor) k w
              failed))
          h
    | inr (g, there, fits, may, found) ↦
        subst
          (λ (r : Result _ × W uri backend without_scheme storage inspector config file_table).
            H f r.1)
          (sym (
            >>=-run
              (find_one uri backend without_scheme storage inspector config file_table id actor) k w
              found))
          (keeps g (ground (arith, fits)) (other_id actor f g w d h there off may) w h)
  ]

  -- A request of a user that updates a file, or removes one or several, leaves the row of every file
  -- that the user may not access as it was, where ids are distinct: another user's, and one without
  -- an owner, where the user is no administrator.
  pub act-Spares :
      (request : FileRequest) (actor : FileActor)
      (w : W uri backend without_scheme storage inspector config file_table) (f : SysFile)
      → Distinct file_id (rows_of uri backend without_scheme storage inspector config file_table w)
      → In f (rows_of uri backend without_scheme storage inspector config file_table w)
      → may_access actor f ≡ false
      → In f (
          rows_of uri backend without_scheme storage inspector config file_table
            (act request actor w))
  unfolding update remove remove_batch
  act-Spares (updates id dto) actor w f d h off =
      found-Keeps id actor f _ w
        (λ g is apart.
          >>=-Keeps (H f) _ _
            (change_files-Keeps uri backend without_scheme storage inspector config file_table f
              (λ x. x.id == id) (updated_file dto)
              (ground (
                arith,
                eq_iff g.id id,
                subst (λ z. (z == f.id) ≡ false) ((eq_iff g.id id).0 is) apart,
                eq_iff id f.id,
                eq_iff f.id id,
              )))
            (λ _ w h. h))
        d off h
  act-Spares (removes deletes id) actor w f d h off =
      found-Keeps id actor f _ w
        (λ g is apart.
          remove_files-Keeps uri backend without_scheme storage inspector config file_table f
            deletes (g ∷ []) (ground (arith, apart)))
        d off h
  act-Spares (removes_batch deletes ids) actor w f d h off =
      let p = λ (x : SysFile). one_of ids x.id && (is_active x.status && may_access actor x) in
      let found = file_table.find_many p w.files in
      let apart : one_of (map (λ (g : SysFile). g.id) found) f.id ≡ false =
        others_absent actor f p w d h off (λ g e. ground (arith, e)) found
          (file_table.find_many-rows p w.files) in
      subst
        (λ (r : Result ℕ × W uri backend without_scheme storage inspector config file_table).
          H f r.1)
        (sym (>>=-run (gets (λ v. file_table.find_many p v.files)) _ w refl))
        (>>=-Keeps (H f) _ _ (throw_if-Keeps (H f) _ _)
          (λ _.
            remove_files-Keeps uri backend without_scheme storage inspector config file_table f
              deletes found apart)
          w h)
