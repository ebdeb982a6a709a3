-- ===== src/Files/Places.antt =====
-- Where the object of a row lies, and what a deletion does there, in
-- apps/api/src/modules/system/file/.
use zhuo_stack.Prelude.{◌≡◌, ◌≢◌, refl, ap, Bool, false, Option, none, some, String}
use zhuo_stack.Files.Keys.{UriCodec}
use zhuo_stack.Files.Storage.{
  Backend, Place, FileStorageType, StorageConfig, parse_record_storage_type, place_of, is_fulfilled,
  get, delete,
}
use zhuo_stack.Files.{SysFile, get_storage_key}

module _ (uri : UriCodec) (backend : Backend) (without_scheme : String → String)
    (storage : StorageConfig) where
  -- What a download of the row reads.
  abbrev pub read_file : SysFile → backend.State → Option backend.Bytes
  read_file f s = elim (get_storage_key uri storage.url_prefix f) [
    | none ↦ none
    | some key ↦ get uri backend without_scheme storage f.storage_type key s
  ]

  abbrev pub place_of_key : String → String → Option Place
  place_of_key storage_type key = elim (parse_record_storage_type storage_type) [
    | none ↦ none
    | some t ↦ elim (place_of uri backend without_scheme storage t key) [
      | none ↦ none
      | some p ↦ some (t, p)
    ]
  ]

  -- Where the object of a row lies.
  abbrev pub file_place : SysFile → Option Place
  file_place f = elim (get_storage_key uri storage.url_prefix f) [
    | none ↦ none
    | some key ↦ place_of_key f.storage_type key
  ]

  abbrev pub read_place : Option Place → backend.State → Option backend.Bytes
  read_place none s = none
  read_place (some p) s = backend.read p.0 p.1 s

  abbrev pub delete_place : Option Place → backend.State → Bool × backend.State
  delete_place none s = (false, s)
  delete_place (some p) s = (
    is_fulfilled uri backend without_scheme storage p.0 (backend.erase p.0 p.1 s).0,
    (backend.erase p.0 p.1 s).1,
  )

  get-place :
      (storage_type key : String) (s : backend.State)
      → get uri backend without_scheme storage storage_type key s
        ≡ read_place (place_of_key storage_type key) s
  unfolding get
  get-place storage_type key s = by_type (parse_record_storage_type storage_type)
    where
      by_place :
          (t : FileStorageType) (o : Option String)
          → (elim o [ none ↦ none | some place ↦ backend.read t place s ])
            ≡ read_place (elim o [ none ↦ none | some p ↦ some (t, p) ]) s
      by_place t none = refl
      by_place t (some p) = refl

      by_type :
          (o : Option FileStorageType)
          → ◌≡◌ {A = Option backend.Bytes}
              (elim o [
                | none ↦ none
                | some t ↦ elim (place_of uri backend without_scheme storage t key) [
                  | none ↦ none
                  | some place ↦ backend.read t place s
                ]
              ])
              (read_place
                (elim o [
                  | none ↦ none
                  | some t ↦ elim (place_of uri backend without_scheme storage t key) [
                    | none ↦ none
                    | some p ↦ some (t, p)
                  ]
                ])
                s)
      by_type none = refl
      by_type (some t) = by_place t (place_of uri backend without_scheme storage t key)

  pub delete-place :
      (storage_type key : String) (s : backend.State)
      → delete uri backend without_scheme storage storage_type key s
        ≡ delete_place (place_of_key storage_type key) s
  unfolding delete
  delete-place storage_type key s = by_type (parse_record_storage_type storage_type)
    where
      by_place :
          (t : FileStorageType) (o : Option String)
          → ◌≡◌ {A = Bool × backend.State}
              (elim o as (λ _. Bool × backend.State) [
                | none ↦ (false, s)
                | some place ↦ (
                  is_fulfilled uri backend without_scheme storage t (backend.erase t place s).0,
                  (backend.erase t place s).1,
                )
              ])
              (delete_place (elim o [ none ↦ none | some p ↦ some (t, p) ]) s)
      by_place t none = refl
      by_place t (some p) = refl

      by_type :
          (o : Option FileStorageType)
          → ◌≡◌ {A = Bool × backend.State}
              (elim o as (λ _. Bool × backend.State) [
                | none ↦ (false, s)
                | some t ↦
                    elim (place_of uri backend without_scheme storage t key)
                      as (λ _. Bool × backend.State) [
                        | none ↦ (false, s)
                        | some place ↦ (
                          is_fulfilled uri backend without_scheme storage t
                              (backend.erase t place s).0,
                          (backend.erase t place s).1,
                        )
                      ]
              ])
              (delete_place
                (elim o [
                  | none ↦ none
                  | some t ↦ elim (place_of uri backend without_scheme storage t key) [
                    | none ↦ none
                    | some p ↦ some (t, p)
                  ]
                ])
                s)
      by_type none = refl
      by_type (some t) = by_place t (place_of uri backend without_scheme storage t key)

  -- A refused deletion leaves the object, which is what the service takes it for.
  abbrev pub KeepsOnFailure : Type 0
  KeepsOnFailure =
      (t : FileStorageType) (k : String) (s : backend.State)
      → is_fulfilled uri backend without_scheme storage t (backend.erase t k s).0 ≡ false
      → backend.read t k (backend.erase t k s).1 ≡ backend.read t k s

  -- The rows lie at different places.
  abbrev pub Apart : SysFile → SysFile → Type 0
  Apart f g = (p : Place) → file_place f ≡ some p → file_place g ≢ some p

  pub read_file-place :
      (f : SysFile) (s : backend.State) → read_file f s ≡ read_place (file_place f) s
  read_file-place f s = by (get_storage_key uri storage.url_prefix f)
    where
      by :
          (o : Option String)
          → ◌≡◌ {A = Option backend.Bytes}
              (elim o [
                | none ↦ none
                | some key ↦ get uri backend without_scheme storage f.storage_type key s
              ])
              (read_place (elim o [ none ↦ none | some key ↦ place_of_key f.storage_type key ]) s)
      by none = refl
      by (some key) = get-place f.storage_type key s

  pub delete_place-other :
      (o q : Option Place) (s : backend.State)
      → ((p : Place) → o ≡ some p → q ≢ some p)
      → read_place q (delete_place o s).1 ≡ read_place q s
  delete_place-other none q s n = refl
  delete_place-other (some p) none s n = refl
  delete_place-other (some p) (some r) s n =
      backend.read-erase_other p.0 r.0 p.1 r.1 s (λ e. n p refl (ap some e))

  pub delete_place-refused :
      KeepsOnFailure
      → (o : Option Place) (s : backend.State) → (delete_place o s).0 ≡ false
      → read_place o (delete_place o s).1 ≡ read_place o s
  delete_place-refused keeps none s e = refl
  delete_place-refused keeps (some p) s e = keeps p.0 p.1 s e
