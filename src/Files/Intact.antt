-- ===== src/Files/Intact.antt =====
-- An active row keeps its object, in apps/api/src/modules/system/file/file.service.ts.
use zhuo_stack.Prelude.{
  ◌≡◌, ◌≢◌, refl, sym, ap, subst, ◌∙◌, ◌⊎◌, inl, inr, Bool, true, false, not, ◌&&◌, Option, none,
  some, List, [], ◌∷◌, map, String, ◌==◌, arith, length, All, is_some, In, In-any, In-map,
  Bool-cases, Option-cases, eq_refl, suc,
}
use zhuo_stack.Prelude.Keyed.{Distinct}
use zhuo_stack.Prelude.Action.{pure, throw_if, or_throw, modify_state, internal, ◌>>=◌, ◌>>◌}
use zhuo_stack.Database.Table.{Table}
use zhuo_stack.Notifications.Query.{one_of}
use zhuo_stack.Guards.{is_active}
use zhuo_stack.Files.Keys.{UriCodec}
use zhuo_stack.Files.Storage.{Backend, StorageConfig}
use zhuo_stack.Files.{
  SysFile, FileConfig, Inspector, file_id, on_objects, delete_objects, ids_where, is_empty,
  settle_rows, remove_files,
}
use zhuo_stack.Files.Rows.{same_row, one_of-ids, ids_where-absent, W, rows_of}
use zhuo_stack.Files.Places.{read_file, file_place, KeepsOnFailure, Apart}
use zhuo_stack.Files.Objects.{delete_objects-other, delete_objects-kept}
use zhuo_stack.Files.Changes.{
  From, Hidden, hide, hide-Hidden, drop_rows, restore_rows, drop_rows-Left, restore_rows-Left,
}

module _ (uri : UriCodec) (backend : Backend) (without_scheme : String → String)
    (storage : StorageConfig) (inspector : Inspector backend.Bytes) (config : FileConfig)
    (file_table : Table SysFile) where
  abbrev Here : Type 0
  Here = W uri backend without_scheme storage inspector config file_table

  abbrev rows : Here → List SysFile
  rows = rows_of uri backend without_scheme storage inspector config file_table

  abbrev read : SysFile → backend.State → Option backend.Bytes
  read = read_file uri backend without_scheme storage

  -- Every active row can be read.
  abbrev pub Intact : Here → Type 0
  Intact w =
      (r : SysFile) → In r (rows w) → is_active r.status ≡ true → is_some (read r w.objects) ≡ true

  -- Rows of different ids lie at different places.
  abbrev pub AllApart : Here → Type 0
  AllApart w =
      (f g : SysFile)
      → In f (rows w)
      → In g (rows w)
      → f.id ≢ g.id
      → Apart uri backend without_scheme storage f g

  abbrev ids_of : Bool → List SysFile → List Bool → List String
  ids_of = ids_where uri backend without_scheme storage inspector config file_table

  abbrev none_of : List String → Bool
  none_of = is_empty uri backend without_scheme storage inspector config file_table

  -- The state after the last steps of a removal.
  settle_rows-end :
      (deletes : Bool) (fs : List SysFile) (bs : List Bool) (w : Here)
      → ((settle_rows uri backend without_scheme storage inspector config file_table deletes fs bs
            w).1
          ≡ w)
        ⊎ ((settle_rows uri backend without_scheme storage inspector config file_table deletes fs bs
              w).1
            ≡ restore_rows uri backend without_scheme storage inspector config file_table
                (ids_of false fs bs)
                (drop_rows uri backend without_scheme storage inspector config file_table
                  (ids_of true fs bs)
                  w))
  unfolding settle_rows ◌>>=◌
  settle_rows-end deletes fs bs w =
      last (not (none_of (ids_of true fs bs)) && not deletes) (not (none_of (ids_of false fs bs)))
    where
      last :
          (b c : Bool)
          → (((throw_if {W = Here} b (internal "文件记录删除失败，请稍后重试")
                  >> (modify_state (
                        drop_rows uri backend without_scheme storage inspector config file_table
                          (ids_of true fs bs))
                      >> (modify_state (
                            restore_rows uri backend without_scheme storage inspector config
                              file_table
                              (ids_of false fs bs))
                          >> (throw_if c (internal "部分文件删除失败，请稍后重试")
                              >> pure (length (ids_of true fs bs))))))
                w).1
              ≡ w)
            ⊎ (((throw_if {W = Here} b (internal "文件记录删除失败，请稍后重试")
                    >> (modify_state (
                          drop_rows uri backend without_scheme storage inspector config file_table
                            (ids_of true fs bs))
                        >> (modify_state (
                              restore_rows uri backend without_scheme storage inspector config
                                file_table
                                (ids_of false fs bs))
                            >> (throw_if c (internal "部分文件删除失败，请稍后重试")
                                >> pure (length (ids_of true fs bs))))))
                  w).1
                ≡ restore_rows uri backend without_scheme storage inspector config file_table
                    (ids_of false fs bs)
                    (drop_rows uri backend without_scheme storage inspector config file_table
                      (ids_of true fs bs)
                      w))
      last true c = inl refl
      last false true = inr refl
      last false false = inr refl

  -- Rows that come from readable ones, with their objects in place, are readable.
  pub From-Intact :
      (gone : List String) (w u : Here)
      → Intact w
      → From uri backend without_scheme storage inspector config file_table
          (rows w)
          (Hidden uri backend without_scheme storage inspector config file_table gone)
          (rows u)
      → ((q : SysFile)
          → In q (rows w)
          → one_of gone q.id ≡ false
          → read q u.objects ≡ read q w.objects)
      → Intact u
  From-Intact gone w u intact from kept r at on =
      let (q, stands, (id, reads), holds) = from r at in
      let (was_on, apart) = holds on in
      let there : one_of gone q.id ≡ false = subst (λ k. one_of gone k ≡ false) id apart in
      ap is_some (reads u.objects ∙ kept q stands there) ∙ intact q stands was_on

  abbrev deletions : List SysFile → backend.State → Option (List Bool) × backend.State
  deletions = delete_objects uri backend without_scheme storage inspector config file_table

  abbrev hidden : List SysFile → Here → Here
  hidden fs w = record (hide uri backend without_scheme storage inspector config file_table fs w) {
    objects = (deletions fs w.objects).1;
  }

  remove_files-run :
      (deletes : Bool) (fs : List SysFile) (w : Here) (o : Option (List Bool))
      → (deletions fs w.objects).0 ≡ o
      → (remove_files uri backend without_scheme storage inspector config file_table deletes fs w).1
        ≡ (elim o [
          | none ↦ hidden fs w
          | some bs ↦
              (settle_rows uri backend without_scheme storage inspector config file_table deletes fs
                bs
                (hidden fs w)).1
        ])
  unfolding remove_files on_objects ◌>>=◌
  remove_files-run deletes fs w o e =
      ap
        (λ (x : Option (List Bool)).
          ((or_throw {W = Here} x (internal "URI malformed") >>= (λ known.
              settle_rows uri backend without_scheme storage inspector config file_table deletes fs
                known))
            (hidden fs w)).1)
        e
      ∙ ended o
    where
      ended :
          (o : Option (List Bool))
          → ((or_throw {W = Here} o (internal "URI malformed") >>= (λ known.
                settle_rows uri backend without_scheme storage inspector config file_table deletes
                  fs known))
              (hidden fs w)).1
            ≡ (elim o [
              | none ↦ hidden fs w
              | some bs ↦
                  (settle_rows uri backend without_scheme storage inspector config file_table
                    deletes fs bs
                    (hidden fs w)).1
            ])
      ended none = refl
      ended (some bs) = refl

  -- The rows of a removal are active rows of the table.
  abbrev pub Chosen : List SysFile → Here → Type 0
  Chosen fs w = (f : SysFile) → In f fs → In f (rows w) × (is_active f.status ≡ true)

  In-All : {P : SysFile → Type 0} (fs : List SysFile) → ((f : SysFile) → In f fs → P f) → All P fs
  In-All [] h = tt
  In-All (f ∷ fs) h = (h f (0, refl), In-All fs (λ g at. h g (suc at.0, at.1)))

  one_of-member :
      (fs : List SysFile) (f : SysFile)
      → In f fs
      → one_of (map (λ (g : SysFile). g.id) fs) f.id ≡ true
  one_of-member fs f at =
      In-any (λ x. x == f.id) (map (λ (g : SysFile). g.id) fs) f.id
        (In-map (λ (g : SysFile). g.id) fs f at) (eq_refl f.id)

  -- A failed deletion is that of an active row.
  failed_on :
      (fs : List SysFile) (bs : List Bool) (w : Here) (q : SysFile)
      → Distinct file_id (rows w)
      → Chosen fs w
      → In q (rows w)
      → one_of (ids_of false fs bs) q.id ≡ true
      → is_active q.status ≡ true
  failed_on fs bs w q distinct chosen at is =
      elim (Bool-cases (one_of (map (λ (g : SysFile). g.id) fs) q.id)) [
        | inl e ↦
            let (f, there, same) = one_of-ids fs q.id e in
            let (stands, on) = chosen f there in
            subst (λ z. is_active z.status ≡ true) (same_row (rows w) f q distinct stands at same)
              on
        | inr e ↦
            let absent =
              ids_where-absent uri backend without_scheme storage inspector config file_table false
                fs bs q.id e in
            absurd (ground (arith, is, absent))
      ]

  left_others :
      (fs : List SysFile) (w : Here) (q : SysFile)
      → AllApart w
      → Chosen fs w
      → In q (rows w)
      → one_of (map (λ g. g.id) fs) q.id ≡ false
      → read q (deletions fs w.objects).1 ≡ read q w.objects
  left_others fs w q apart chosen at absent =
      delete_objects-other uri backend without_scheme storage inspector config file_table fs q
        w.objects
        (In-All fs (λ f there. apart f q (chosen f there).0 at (λ same.
          let member =
            subst (λ k. one_of (map (λ (g : SysFile). g.id) fs) k ≡ true) same
              (one_of-member fs f there) in
          absurd (ground (arith, member, absent)))))

  left_kept :
      (fs : List SysFile) (bs : List Bool) (w : Here) (q : SysFile)
      → KeepsOnFailure uri backend without_scheme storage
      → Distinct file_id (rows w)
      → AllApart w
      → Chosen fs w
      → In q (rows w)
      → (deletions fs w.objects).0 ≡ some bs
      → one_of (ids_of true fs bs) q.id ≡ false
      → read q (deletions fs w.objects).1 ≡ read q w.objects
  left_kept fs bs w q keeps distinct apart chosen at e absent =
      delete_objects-kept uri backend without_scheme storage inspector config file_table fs bs
        w.objects (deletions fs w.objects).1 q keeps (λ i. (e i, (deletions fs w.objects).1))
        (In-All fs (λ f there. (
          (λ same.
              ap (file_place uri backend without_scheme storage)
                (same_row (rows w) f q distinct (chosen f there).0 at same)),
          (λ differ. apart f q (chosen f there).0 at differ),
        )))
        absent

  pub remove_files-Intact :
      (deletes : Bool) (fs : List SysFile) (w : Here)
      → KeepsOnFailure uri backend without_scheme storage
      → Distinct file_id (rows w)
      → AllApart w
      → Chosen fs w
      → Intact w
      → Intact
          (remove_files uri backend without_scheme storage inspector config file_table deletes fs
            w).1
  remove_files-Intact deletes fs w keeps distinct apart chosen intact =
      let ids = map (λ (g : SysFile). g.id) fs in
      let still =
        From-Intact ids w (hidden fs w) intact
          (hide-Hidden uri backend without_scheme storage inspector config file_table fs w)
          (λ q at absent. left_others fs w q apart chosen at absent) in
      elim (Option-cases (deletions fs w.objects).0) [
        | inl e ↦ subst Intact (sym (remove_files-run deletes fs w none e)) still
        | inr (bs, e) ↦
            subst Intact (sym (remove_files-run deletes fs w (some bs) e))
              (elim (settle_rows-end deletes fs bs (hidden fs w)) [
                | inl same ↦ subst Intact (sym same) still
                | inr same ↦ subst Intact (sym same) (
                    From-Intact (ids_of true fs bs) w _ intact
                      (λ r stands.
                        let rows_left =
                          restore_rows-Left uri backend without_scheme storage inspector config
                            file_table (rows w) (ids_of true fs bs) (ids_of false fs bs)
                            (drop_rows uri backend without_scheme storage inspector config
                              file_table (ids_of true fs bs) (hidden fs w))
                            (λ q at failed. failed_on fs bs w q distinct chosen at failed)
                            (drop_rows-Left uri backend without_scheme storage inspector config
                              file_table (rows w) ids (ids_of true fs bs) (hidden fs w)
                              (hide-Hidden uri backend without_scheme storage inspector config
                                file_table fs w)) in
                        let (q, at, same, holds) = rows_left r stands in
                        (q, at, same, (λ on. (holds.0 on, holds.1))))
                      (λ q at absent. left_kept fs bs w q keeps distinct apart chosen at e absent))
              ])
      ]
