-- ===== src/Files/Stored.antt =====
-- What the storage keeps of an upload, in apps/api/src/modules/system/file/.
use Prim.Native.String
use zhuo_stack.Prelude.{
  ◌==◌, ◌∙◌, Option-cases, ◌≡◌, refl, ap, subst, ◌⊎◌, inl, inr, Option, none, some, String, arith,
  Bool-cases,
}
use zhuo_stack.Prelude.Action.{ok, or_throw, internal, >>=-ok_elim, or_throw-ok}
use zhuo_stack.Files.Keys.{
  UriCodec, strip_leading, trim_trailing_slash, with_object_prefix, encode_object_key,
}
use zhuo_stack.Files.Storage.{
  Backend, FileStorageType, local, aliyun, tencent, StorageConfig, StoredObject, type_text,
  parse_record_storage_type, place_of, url_of, build_aliyun_public_url, build_tencent_public_url,
  write_at, put, get, Body, stream, buffer, resolve_local_path, create_local_read_stream, open_body,
  read_body,
}
use zhuo_stack.Files.Addresses.{
  NoSlash, strip_leading_idle, decode-encode_object_key, encode_object_key-NoSlash,
  after_prefix-trimmed,
}
use zhuo_stack.Files.{SysFile, get_storage_key}

pub parse-type_text : (t : FileStorageType) → parse_record_storage_type (type_text t) ≡ some t
unfolding parse_record_storage_type
parse-type_text local = refl
parse-type_text aliyun = refl
parse-type_text tencent = refl

module _ (uri : UriCodec) (backend : Backend) (without_scheme : String → String)
    (storage : StorageConfig) where
  -- What `put` leaves behind.
  abbrev pub Stored : String → backend.Bytes → backend.State → StoredObject → backend.State → Type 0
  Stored key body s stored s' =
      (place : String) × (place_of uri backend without_scheme storage storage.storage_type key
        ≡ some place)
      × (backend.read storage.storage_type place s' ≡ some body)
      × (stored ≡ record {
        key = key;
        url = url_of uri backend without_scheme storage key;
        storage_type = type_text storage.storage_type;
      })

  write_at-read :
      (t : FileStorageType) (place : String) (body : backend.Bytes) (u v : backend.State)
      (x : Unit {0})
      → write_at uri backend without_scheme storage t place body u ≡ (ok x, v)
      → backend.read t place v ≡ some body
  write_at-read t place body u v x h = elim (Bool-cases (backend.write t place body u).0) [
    | inl done ↦
        let same : (backend.write t place body u).1 ≡ v = ground (arith, h, done) in
        subst (λ z. backend.read t place z ≡ some body) same
          (backend.read-write t place body u done)
    | inr lost ↦ absurd (ground (arith, h, lost))
  ]

  pub put-Stored :
      (key : String) (body : backend.Bytes) (s s' : backend.State) (stored : StoredObject)
      → put uri backend without_scheme storage key body s ≡ (ok stored, s')
      → Stored (with_object_prefix storage.object_prefix key) body s stored s'
  unfolding put
  put-Stored key body s s' stored h =
      let nk = with_object_prefix storage.object_prefix key in
      >>=-ok_elim
        (or_throw (place_of uri backend without_scheme storage storage.storage_type nk)
          (internal "非法的文件存储路径"))
        _ s h
        (λ place u p q.
          let (at, same) =
            or_throw-ok (place_of uri backend without_scheme storage storage.storage_type nk) _ s
              p in
          >>=-ok_elim (write_at uri backend without_scheme storage storage.storage_type place body)
            _ u q
            (λ t v p' q'. (
              place,
              at,
              rw⁻¹ (ap (λ z. z.1) q') (write_at-read storage.storage_type place body u v t p'),
              ground arith,
            )))

  local_key :
      (key path encoded : String) (o : Option String)
      → path ≡ key
      → uri.decode encoded ≡ some key
      → NoSlash key
      → (o ≡ some encoded) ⊎ (o ≡ none)
      → (elim o [ some e ↦ uri.decode e | none ↦ some (strip_leading path) ]) ≡ some key
  local_key key path encoded o same d n (inl e) = rw e d
  local_key key path encoded o same d n (inr e) = rw (e, same) (ap some (strip_leading_idle key n))

  -- The key of a row that has the key and the address of an object.
  pub get_storage_key_of :
      (key : String) (f : SysFile)
      → NoSlash key
      → f.file_path ≡ key
      → f.url ≡ url_of uri backend without_scheme storage key
      → f.storage_type ≡ type_text storage.storage_type
      → get_storage_key uri storage.url_prefix f ≡ some key
  unfolding get_storage_key
  get_storage_key_of key f n e u t = by_type storage.storage_type u t
    where
      by_type :
          (s : FileStorageType)
          → f.url ≡ (elim s [
            | local ↦
                String.◌++◌
                  (trim_trailing_slash storage.url_prefix)
                  (String.◌++◌ "/" (encode_object_key uri key))
            | aliyun ↦ build_aliyun_public_url uri backend without_scheme storage key
            | tencent ↦ build_tencent_public_url uri backend without_scheme storage key
          ])
          → f.storage_type ≡ type_text s
          → get_storage_key uri storage.url_prefix f ≡ some key
      by_type local a b =
          rw (b, a)
            (local_key key f.file_path (encode_object_key uri key) _ e
              (decode-encode_object_key uri key) n
              (after_prefix-trimmed storage.url_prefix (encode_object_key uri key)
                (encode_object_key-NoSlash uri key n)))
      by_type aliyun a b = rw (b, e) (ap some (strip_leading_idle key n))
      by_type tencent a b = rw (b, e) (ap some (strip_leading_idle key n))

  -- Where a read finds an object, the body of a download reads the same.
  pub get-open_body :
      (storage_type key : String) (bytes : backend.Bytes) (s : backend.State)
      → get uri backend without_scheme storage storage_type key s ≡ some bytes
      → (body : Body backend.Bytes) × (open_body uri backend without_scheme storage storage_type key
            s
          ≡ some body)
        × (read_body uri backend without_scheme storage body s ≡ some bytes)
  unfolding open_body get create_local_read_stream place_of parse_record_storage_type
  get-open_body storage_type key bytes s h = elim (Bool-cases (storage_type == "local")) [
    | inl on ↦ elim (Option-cases (resolve_local_path uri backend without_scheme storage key)) [
      | inl e ↦ absurd (ground (arith, on, e, h))
      | inr (path, e) ↦ (stream path, rw (on, e), ground (arith, on, e, h))
    ]
    | inr off ↦ (buffer bytes, rw (off, h), refl)
  ]

  -- A row that names an upload's storage and key leads a read to the upload's bytes.
  pub get-stored :
      (key : String) (body : backend.Bytes) (s s' : backend.State) (stored : StoredObject)
      (f : SysFile)
      → Stored key body s stored s'
      → f.storage_type ≡ stored.storage_type
      → get uri backend without_scheme storage f.storage_type key s' ≡ some body
  unfolding get
  get-stored key body s s' stored f (place, at, held, same) e =
      at_type (parse_record_storage_type f.storage_type) (
        ap parse_record_storage_type (e ∙ ap (λ (x : StoredObject). x.storage_type) same)
        ∙ parse-type_text storage.storage_type)
    where
      at_type :
          (o : Option FileStorageType)
          → o ≡ some storage.storage_type
          → ◌≡◌ {A = Option backend.Bytes}
              (elim o [
                | none ↦ none
                | some t ↦ elim (place_of uri backend without_scheme storage t key) [
                  | none ↦ none
                  | some p ↦ backend.read t p s'
                ]
              ])
              (some body)
      at_type o is = rw (is, at) held
