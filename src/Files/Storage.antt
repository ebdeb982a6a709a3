-- ===== src/Files/Storage.antt =====
-- The class of apps/api/src/modules/system/file/storage/file-storage.service.ts over the disk and
-- the clients of the two clouds, which are an interface. The settings are those that the
-- constructor found complete; `without_scheme` is `replace(/^https?:\/\//, '')`.
use mathlib.Core.Option
use text.Mathlib.Text.{starts_with}
use Prim.Native.String.{◌++◌}
use zhuo_stack.Prelude.{
  ◌≡◌, ◌≢◌, Bool, true, false, not, ◌&&◌, Option, none, some, String, ◌==◌, if◌then◌else◌,
}
use zhuo_stack.Prelude.Action.{Action, ok, err, pure, or_throw, internal, ◌>>=◌, ◌>>◌}
use zhuo_stack.Files.Keys.{
  UriCodec, strip_leading, trim_trailing_slash, encode_object_key, with_object_prefix,
}

pub data FileStorageType : Type 0 where
  local aliyun tencent : FileStorageType

abbrev pub Place : Type 0
Place = FileStorageType × String

pub data Erasure : Type 0 where
  erased absent failed : Erasure

-- The disk and the clouds. What is written is there afterwards, and an operation on one place
-- leaves the others alone; where it fails, it says so.
pub record Backend : Type 1 where
  pub State : Type 0
  pub Bytes : Type 0
  pub write : FileStorageType → String → Bytes → State → Bool × State
  pub erase : FileStorageType → String → State → Erasure × State
  pub read : FileStorageType → String → State → Option Bytes
  pub read-write :
      (t : FileStorageType) (k : String) (b : Bytes) (s : State)
      → (write t k b s).0 ≡ true
      → read t k (write t k b s).1 ≡ some b
  pub read-write_other :
      (t u : FileStorageType) (k j : String) (b : Bytes) (s : State)
      → ◌≢◌ {A = Place} (u, j) (t, k)
      → read u j (write t k b s).1 ≡ read u j s
  pub read-erase :
      (t : FileStorageType) (k : String) (s : State)
      → (erase t k s).0 ≡ erased
      → read t k (erase t k s).1 ≡ none
  pub read-erase_other :
      (t u : FileStorageType) (k j : String) (s : State)
      → ◌≢◌ {A = Place} (u, j) (t, k)
      → read u j (erase t k s).1 ≡ read u j s
  -- `path.resolve`, and what it makes of the directory of the uploads.
  pub resolve : String → String
  pub storage_root : String

pub record StoredObject : Type 0 where
  pub key : String
  pub url : String
  pub storage_type : String

-- `custom_base` where it is set, and otherwise the base of the bucket.
pub record CloudConfig : Type 0 where
  pub public_url : Option String
  pub bucket : String
  pub endpoint : Option String
  pub region : String

pub record StorageConfig : Type 0 where
  pub storage_type : FileStorageType
  pub url_prefix : String
  pub object_prefix : String
  pub aliyun_oss : CloudConfig
  pub tencent_cos : CloudConfig

abbrev pub type_text : FileStorageType → String
type_text local = "local"
type_text aliyun = "aliyun"
type_text tencent = "tencent"

unfoldable pub parse_record_storage_type : String → Option FileStorageType
parse_record_storage_type value =
    if value == "local"
    then some local
    else if value == "aliyun"
    then some aliyun
    else if value == "tencent"
    then some tencent
    else none

-- What a download hands to the response: the path of a stream, whose file is opened only when the
-- response reads it, or the bytes.
pub data Body (Bytes : Type 0) : Type 0 where
  stream : String → Body Bytes
  buffer : Bytes → Body Bytes

-- `a || b` on texts.
abbrev pub or_else : Option String → String → String
or_else none d = d
or_else (some s) d = if s == "" then d else s

module _ (uri : UriCodec) (backend : Backend) (without_scheme : String → String)
    (config : StorageConfig) where
  unfoldable pub join_public_url : String → String → String
  join_public_url base key = trim_trailing_slash base ++ ("/" ++ encode_object_key uri key)

  unfoldable pub build_aliyun_public_url : String → String
  build_aliyun_public_url key =
      let oss = config.aliyun_oss in
      let endpoint =
        trim_trailing_slash
          (without_scheme (or_else oss.endpoint (oss.region ++ ".aliyuncs.com"))) in
      join_public_url (or_else oss.public_url ("https://" ++ (oss.bucket ++ ("." ++ endpoint)))) key

  unfoldable pub build_tencent_public_url : String → String
  build_tencent_public_url key =
      let cos = config.tencent_cos in
      join_public_url
        (or_else cos.public_url
          ("https://" ++ (cos.bucket ++ (".cos." ++ (cos.region ++ ".myqcloud.com")))))
        key

  -- `none` is the error of a path that leaves the directory of the uploads.
  unfoldable pub resolve_local_path : String → Option String
  resolve_local_path key =
      let resolved = backend.resolve (strip_leading key) in
      if not (resolved == backend.storage_root)
        && not (starts_with resolved (backend.storage_root ++ "/"))
      then none
      else some resolved

  -- Where an object of a key lies: a path of the disk, or the key in a cloud.
  unfoldable pub place_of : FileStorageType → String → Option String
  place_of local key = resolve_local_path key
  place_of aliyun key = some key
  place_of tencent key = some key

  abbrev pub url_of : String → String
  url_of key = elim config.storage_type [
    | local ↦ trim_trailing_slash config.url_prefix ++ ("/" ++ encode_object_key uri key)
    | aliyun ↦ build_aliyun_public_url key
    | tencent ↦ build_tencent_public_url key
  ]

  abbrev pub write_at : FileStorageType → String → backend.Bytes → Action backend.State (Unit {0})
  write_at t place body s =
      let (done, s') = backend.write t place body s in
      (if done then ok tt else err (internal "EIO"), s')

  -- `put` and `putFile`, which differ in where the bytes come from.
  unfoldable pub put : String → backend.Bytes → Action backend.State StoredObject
  put key body = do
    let normalized_key = with_object_prefix config.object_prefix key
    place ← or_throw (place_of config.storage_type normalized_key) (internal "非法的文件存储路径")
    write_at config.storage_type place body
    pure (record {
      key = normalized_key;
      url = url_of normalized_key;
      storage_type = type_text config.storage_type;
    })

  unfoldable pub get : String → String → backend.State → Option backend.Bytes
  get storage_type key s = elim (parse_record_storage_type storage_type) [
    | none ↦ none
    | some t ↦ elim (place_of t key) [ none ↦ none | some place ↦ backend.read t place s ]
  ]

  unfoldable pub create_local_read_stream : String → Option (Body backend.Bytes)
  create_local_read_stream key = Option.map stream (resolve_local_path key)

  -- The choice of `getDownloadInfo`; `none` is an exception.
  unfoldable pub open_body : String → String → backend.State → Option (Body backend.Bytes)
  unfolding create_local_read_stream
  open_body storage_type key s =
      if storage_type == "local"
      then create_local_read_stream key
      else Option.map buffer (get storage_type key s)

  -- What the response gets out of a body; `none` is the error of a stream.
  abbrev pub read_body : Body backend.Bytes → backend.State → Option backend.Bytes
  read_body (stream path) s = backend.read local path s
  read_body (buffer bytes) s = some bytes

  -- A file that is not there is as good as deleted, on the disk; a client of a cloud decides itself.
  abbrev pub is_fulfilled : FileStorageType → Erasure → Bool
  is_fulfilled t erased = true
  is_fulfilled t absent = elim t [ local ↦ true | _ ↦ false ]
  is_fulfilled t failed = false

  -- Whether the promise is fulfilled.
  unfoldable pub delete : String → String → backend.State → Bool × backend.State
  delete storage_type key s =
      elim (parse_record_storage_type storage_type) as (λ _. Bool × backend.State) [
        | none ↦ (false, s)
        | some t ↦ elim (place_of t key) as (λ _. Bool × backend.State) [
          | none ↦ (false, s)
          | some place ↦
              (let (outcome, s') = backend.erase t place s in (is_fulfilled t outcome, s'))
        ]
      ]
