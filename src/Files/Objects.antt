-- ===== src/Files/Objects.antt =====
-- What the deletions of apps/api/src/modules/system/file/file.service.ts do to the objects.
use mathlib.Core.Option
use zhuo_stack.Prelude.{
  ◌≡◌, ◌≢◌, refl, sym, ap, subst, ◌∙◌, inl, inr, Bool, true, false, Option, none, some, List, [],
  ◌∷◌, String, arith, All, Option-cases, eq_iff, text_cases,
}
use zhuo_stack.Notifications.Query.{one_of}
use zhuo_stack.Database.Table.{Table}
use zhuo_stack.Files.Keys.{UriCodec}
use zhuo_stack.Files.Storage.{Backend, StorageConfig, delete}
use zhuo_stack.Files.{SysFile, FileConfig, Inspector, get_storage_key, delete_objects, ids_where}
use zhuo_stack.Files.Places.{
  read_file, file_place, delete_place, delete-place, read_file-place, delete_place-other,
  delete_place-refused, place_of_key, KeepsOnFailure, Apart,
}

module _ (uri : UriCodec) (backend : Backend) (without_scheme : String → String)
    (storage : StorageConfig) where
  abbrev key_of : SysFile → Option String
  key_of f = get_storage_key uri storage.url_prefix f

  -- The deletion of a row's object, given its key.
  deleted :
      (f : SysFile) (key : String) (s : backend.State)
      → key_of f ≡ some key
      → delete uri backend without_scheme storage f.storage_type key s
        ≡ delete_place uri backend without_scheme storage
            (file_place uri backend without_scheme storage f)
            s
  deleted f key s e =
      delete-place uri backend without_scheme storage f.storage_type key s
      ∙ ap (λ o. delete_place uri backend without_scheme storage o s)
          (sym (
            ap
              (λ (o : Option String). elim o [
                | none ↦ none
                | some k ↦ place_of_key uri backend without_scheme storage f.storage_type k
              ])
              e))

  deleted-other :
      (f r : SysFile) (key : String) (s : backend.State)
      → key_of f ≡ some key
      → Apart uri backend without_scheme storage f r
      → read_file uri backend without_scheme storage r
          (delete uri backend without_scheme storage f.storage_type key s).1
        ≡ read_file uri backend without_scheme storage r s
  deleted-other f r key s e apart =
      ap (λ (d : Bool × backend.State). read_file uri backend without_scheme storage r d.1)
        (deleted f key s e)
      ∙ read_file-place uri backend without_scheme storage r _
      ∙ delete_place-other uri backend without_scheme storage
          (file_place uri backend without_scheme storage f)
          (file_place uri backend without_scheme storage r) s apart
      ∙ sym (read_file-place uri backend without_scheme storage r s)

  deleted-refused :
      (f r : SysFile) (key : String) (s : backend.State)
      → KeepsOnFailure uri backend without_scheme storage
      → key_of f ≡ some key
      → file_place uri backend without_scheme storage f
        ≡ file_place uri backend without_scheme storage r
      → (delete uri backend without_scheme storage f.storage_type key s).0 ≡ false
      → read_file uri backend without_scheme storage r
          (delete uri backend without_scheme storage f.storage_type key s).1
        ≡ read_file uri backend without_scheme storage r s
  deleted-refused f r key s keeps e same refused =
      let here =
        deleted f key s e ∙ ap (λ o. delete_place uri backend without_scheme storage o s) same in
      ap (λ (d : Bool × backend.State). read_file uri backend without_scheme storage r d.1) here
      ∙ read_file-place uri backend without_scheme storage r _
      ∙ delete_place-refused uri backend without_scheme storage keeps
          (file_place uri backend without_scheme storage r) s
          (sym (ap (λ (d : Bool × backend.State). d.0) here) ∙ refused)
      ∙ sym (read_file-place uri backend without_scheme storage r s)

  -- Rows of one id are at one place, and others apart.
  abbrev pub Known : SysFile → SysFile → Type 0
  Known f r =
      (f.id ≡ r.id
        → file_place uri backend without_scheme storage f
          ≡ file_place uri backend without_scheme storage r)
      × (f.id ≢ r.id → Apart uri backend without_scheme storage f r)

  module _ (inspector : Inspector backend.Bytes) (config : FileConfig)
      (file_table : Table SysFile) where
    abbrev deletions : List SysFile → backend.State → Option (List Bool) × backend.State
    deletions = delete_objects uri backend without_scheme storage inspector config file_table

    abbrev successful : List SysFile → List Bool → List String
    successful = ids_where uri backend without_scheme storage inspector config file_table true

    abbrev Outcomes : Type 0
    Outcomes = Option (List Bool) × backend.State

    -- The deletions of the rest, after that of the first.
    abbrev deleted_then : SysFile → List SysFile → backend.State → String → Outcomes
    deleted_then f fs s key =
        let d = delete uri backend without_scheme storage f.storage_type key s in
        let rest = deletions fs d.1 in (Option.map (λ bs. d.0 ∷ bs) rest.0, rest.1)

    deletions-cons :
        (f : SysFile) (fs : List SysFile) (s : backend.State)
        → deletions (f ∷ fs) s ≡ (elim (key_of f) as (λ _. Outcomes) [
          | none ↦ (none, s)
          | some key ↦ deleted_then f fs s key
        ])
    unfolding delete_objects
    deletions-cons f fs s = refl

    deletions-run :
        (f : SysFile) (fs : List SysFile) (s : backend.State) (o : Option String)
        → key_of f ≡ o
        → deletions (f ∷ fs) s
          ≡ (elim o as (λ _. Outcomes) [ none ↦ (none, s) | some key ↦ deleted_then f fs s key ])
    deletions-run f fs s o e =
        deletions-cons f fs s
        ∙ ap
            (λ (o : Option String). elim o as (λ _. Outcomes) [
              | none ↦ (none, s)
              | some key ↦ deleted_then f fs s key
            ])
            e

    pub delete_objects-other :
        (fs : List SysFile) (r : SysFile) (s : backend.State)
        → All (λ f. Apart uri backend without_scheme storage f r) fs
        → read_file uri backend without_scheme storage r (deletions fs s).1
          ≡ read_file uri backend without_scheme storage r s
    unfolding delete_objects
    delete_objects-other [] r s all = refl
    delete_objects-other (f ∷ fs) r s (apart, all) = elim (Option-cases (key_of f)) [
      | inl e ↦
          ap (λ (o : Outcomes). read_file uri backend without_scheme storage r o.1)
            (deletions-run f fs s none e)
      | inr (key, e) ↦
          ap (λ (o : Outcomes). read_file uri backend without_scheme storage r o.1)
            (deletions-run f fs s (some key) e)
          ∙ delete_objects-other fs r
              (delete uri backend without_scheme storage f.storage_type key s).1 all
          ∙ deleted-other f r key s e apart
    ]

    -- The outcomes of a first deletion and the rest.
    outcomes-cons :
        (b : Bool) (o : Option (List Bool)) (bs : List Bool)
        → Option.map (λ cs. b ∷ cs) o ≡ some bs
        → (cs : List Bool) × (o ≡ some cs) × (bs ≡ b ∷ cs)
    outcomes-cons b none bs h = absurd (ground arith)
    outcomes-cons b (some cs) bs h = (cs, refl, ground arith)

    -- The first is refused where its id is not among the successful ones.
    first_refused :
        (f : SysFile) (fs : List SysFile) (b : Bool) (cs : List Bool) (id : String)
        → one_of (successful (f ∷ fs) (b ∷ cs)) id ≡ false
        → (one_of (successful fs cs) id ≡ false) × (f.id ≡ id → b ≡ false)
    first_refused f fs true cs id h =
        (ground (arith, h), λ e. absurd (ground (arith, h, (eq_iff f.id id).1 e)))
    first_refused f fs false cs id h = (h, λ e. refl)

    -- An object whose row is not among the deleted ones is left.
    pub delete_objects-kept :
        (fs : List SysFile) (bs : List Bool) (s s' : backend.State) (r : SysFile)
        → KeepsOnFailure uri backend without_scheme storage
        → deletions fs s ≡ (some bs, s')
        → All (λ f. Known f r) fs
        → one_of (successful fs bs) r.id ≡ false
        → read_file uri backend without_scheme storage r s'
          ≡ read_file uri backend without_scheme storage r s
    unfolding delete_objects
    delete_objects-kept [] bs s s' r keeps h all gone =
        ap (read_file uri backend without_scheme storage r) (sym (ap (λ d. d.1) h))
    delete_objects-kept (f ∷ fs) bs s s' r keeps h (known, all) gone =
        elim (Option-cases (key_of f)) [
          | inl e ↦ absurd (stopped (sym (deletions-run f fs s none e) ∙ h))
          | inr (key, e) ↦
              let d = delete uri backend without_scheme storage f.storage_type key s in
              let run = sym (deletions-run f fs s (some key) e) ∙ h in
              let (cs, rest, is) =
                outcomes-cons d.0 (deletions fs d.1).0 bs (ap (λ (o : Outcomes). o.0) run) in
              let (gone_rest, refused) =
                first_refused f fs d.0 cs r.id
                  (subst (λ bs. one_of (successful (f ∷ fs) bs) r.id ≡ false) is gone) in
              let after =
                delete_objects-kept fs cs d.1 s' r keeps
                  (λ i. (rest i, (ap (λ (o : Outcomes). o.1) run) i)) all gone_rest in
              after ∙ elim (text_cases f.id r.id) [
                | inl (_, same) ↦ deleted-refused f r key s keeps e (known.0 same) (refused same)
                | inr (_, differ) ↦ deleted-other f r key s e (known.1 differ)
              ]
        ]
      where
        stopped : ◌≡◌ {A = Outcomes} (none, s) (some bs, s') → ⊥
        stopped e = absurd (ground (arith, ap (λ (o : Outcomes). o.0) e))
