-- ===== src/Files/Changes.antt =====
-- Where the rows after the statements of a removal come from, in
-- apps/api/src/modules/system/file/file.service.ts.
use zhuo_stack.Prelude.{
  ◌≡◌, refl, subst, ◌∙◌, inl, inr, Bool, true, false, not, ◌&&◌, Option, List, [], ◌∷◌, map, String,
  arith, if◌then◌else◌, filter, In, In-map_inverse, Bool-cases,
}
use zhuo_stack.Database.Table.{Table}
use zhuo_stack.Notifications.Query.{one_of}
use zhuo_stack.Trees.Depth.{filter-In}
use zhuo_stack.Guards.{Status, active, inactive, is_active}
use zhuo_stack.Files.Keys.{UriCodec}
use zhuo_stack.Files.Storage.{Backend, StorageConfig}
use zhuo_stack.Files.{SysFile, FileConfig, Inspector, get_storage_key, ids_where, is_empty}
use zhuo_stack.Files.Rows.{W, rows_of}
use zhuo_stack.Files.Places.{read_file}

module _ (uri : UriCodec) (backend : Backend) (without_scheme : String → String)
    (storage : StorageConfig) (inspector : Inspector backend.Bytes) (config : FileConfig)
    (file_table : Table SysFile) where
  abbrev Here : Type 0
  Here = W uri backend without_scheme storage inspector config file_table

  abbrev rows : Here → List SysFile
  rows = rows_of uri backend without_scheme storage inspector config file_table

  abbrev read : SysFile → backend.State → Option backend.Bytes
  read = read_file uri backend without_scheme storage

  -- A row that reads as another one of the same id.
  abbrev pub Same : SysFile → SysFile → Type 0
  Same r q = (r.id ≡ q.id) × ((s : backend.State) → read r s ≡ read q s)

  pub with_status-Same : (st : Status) (r : SysFile) → Same (record r { status = st }) r
  unfolding get_storage_key
  with_status-Same st r = (refl, λ s. refl)

  -- The rows of a list come from those of another, with a condition on each.
  abbrev pub From : List SysFile → (SysFile → SysFile → Type 0) → List SysFile → Type 0
  From before Q rs = (r : SysFile) → In r rs → (q : SysFile) × In q before × Same r q × Q r q

  pub changed-From :
      (before : List SysFile) (Q R : SysFile → SysFile → Type 0) (p : SysFile → Bool)
      (g : SysFile → SysFile) (rs : List SysFile)
      → ((r : SysFile) → Same (g r) r)
      → ((r q : SysFile) → In q before → r.id ≡ q.id → Q r q → p r ≡ true → R (g r) q)
      → ((r q : SysFile) → Q r q → p r ≡ false → R r q)
      → From before Q rs
      → From before R (map (λ r. if p r then g r else r) rs)
  changed-From before Q R p g rs same on off from r at =
      let (x, there, is) = In-map_inverse (λ r. if p r then g r else r) rs r at in
      let (q, stands, (id, reads), holds) = from x there in
      elim (Bool-cases (p x)) [
        | inl e ↦
            let it : g x ≡ r = subst (λ b. (if b then g x else x) ≡ r) e is in
            subst (λ r. (q : SysFile) × In q before × Same r q × R r q) it
              (q, stands, ((same x).0 ∙ id, λ s. (same x).1 s ∙ reads s), on x q stands id holds e)
        | inr e ↦
            let it : x ≡ r = subst (λ b. (if b then g x else x) ≡ r) e is in
            subst (λ r. (q : SysFile) × In q before × Same r q × R r q) it
              (q, stands, (id, reads), off x q holds e)
      ]

  pub filtered-From :
      (before : List SysFile) (Q R : SysFile → SysFile → Type 0) (p : SysFile → Bool)
      (rs : List SysFile)
      → ((r q : SysFile) → Q r q → p r ≡ true → R r q)
      → From before Q rs
      → From before R (filter p rs)
  filtered-From before Q R p rs to from r at =
      let (there, fits) = filter-In p rs r at in
      let (q, stands, same, holds) = from r there in (q, stands, same, to r q holds fits)

  -- The rows after the steps of a removal.
  abbrev pub Hidden : List String → SysFile → SysFile → Type 0
  Hidden ids r q =
      is_active r.status ≡ true → (is_active q.status ≡ true) × (one_of ids r.id ≡ false)

  abbrev pub Left : List String → SysFile → SysFile → Type 0
  Left ids r q = (is_active r.status ≡ true → is_active q.status ≡ true) × (one_of ids r.id ≡ false)

  abbrev pub hide : List SysFile → Here → Here
  hide fs w = record w {
    files =
        file_table.update_many (λ f. one_of (map (λ g. g.id) fs) f.id && is_active f.status)
          (λ f. record f { status = inactive }) w.files;
  }

  pub hide-Hidden :
      (fs : List SysFile) (w : Here)
      → From (rows w) (Hidden (map (λ g. g.id) fs)) (rows (hide fs w))
  hide-Hidden fs w =
      let ids = map (λ (g : SysFile). g.id) fs in
      let p = λ (f : SysFile). one_of ids f.id && is_active f.status in
      rw (file_table.rows-update_many p (λ f. record f { status = inactive }) w.files) (
        changed-From (rows w) (λ r q. r ≡ q) (Hidden ids) p (λ f. record f { status = inactive })
          (rows w) (with_status-Same inactive) (λ r q at id e fits on. absurd (ground (arith, on)))
          (λ r q e misses on.
            (subst (λ z. is_active z.status ≡ true) e on, ground (arith, misses, on)))
          (λ r at. (r, at, (refl, λ s. refl), refl)))

  abbrev ids_of : Bool → List SysFile → List Bool → List String
  ids_of = ids_where uri backend without_scheme storage inspector config file_table

  abbrev none_of : List String → Bool
  none_of = is_empty uri backend without_scheme storage inspector config file_table

  abbrev pub drop_rows : List String → Here → Here
  drop_rows ids w = record w {
    files = if none_of ids then w.files else file_table.delete_many (λ f. one_of ids f.id) w.files;
  }

  abbrev pub restore_rows : List String → Here → Here
  restore_rows ids w = record w {
    files =
        if none_of ids
        then w.files
        else file_table.update_many (λ f. one_of ids f.id) (λ f. record f { status = active })
            w.files;
  }

  pub drop_rows-Left :
      (before : List SysFile) (ids gone : List String) (w : Here)
      → From before (Hidden ids) (rows w)
      → From before (Left gone) (rows (drop_rows gone w))
  drop_rows-Left before ids [] w from = λ r at.
      let (q, stands, same, holds) = from r at in (q, stands, same, ((λ on. (holds on).0), refl))
  drop_rows-Left before ids (id ∷ rest) w from =
      rw (file_table.rows-delete_many (λ f. one_of (id ∷ rest) f.id) w.files) (
        filtered-From before (Hidden ids) (Left (id ∷ rest)) (λ f. not (one_of (id ∷ rest) f.id))
          (rows w) (λ r q holds kept. ((λ on. (holds on).0), ground (arith, kept))) from)

  pub restore_rows-Left :
      (before : List SysFile) (gone ids : List String) (w : Here)
      → ((q : SysFile) → In q before → one_of ids q.id ≡ true → is_active q.status ≡ true)
      → From before (Left gone) (rows w)
      → From before (Left gone) (rows (restore_rows ids w))
  restore_rows-Left before gone [] w on from = from
  restore_rows-Left before gone (id ∷ rest) w on from =
      rw
        (file_table.rows-update_many (λ f. one_of (id ∷ rest) f.id)
          (λ f. record f { status = active }) w.files)
        (changed-From before (Left gone) (Left gone) (λ f. one_of (id ∷ rest) f.id)
          (λ f. record f { status = active }) (rows w) (with_status-Same active)
          (λ r q at same holds e.
            ((λ _. on q at (subst (λ k. one_of (id ∷ rest) k ≡ true) same e)), holds.1))
          (λ r q holds misses. holds) from)
