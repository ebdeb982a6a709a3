-- ===== src/Files/Data.antt =====
-- The rows and the requests of apps/api/src/modules/system/file/file.service.ts and the types that
-- it knows.
use Prim.Native.Char.{code}
use Prim.Native.String.{◌++◌}
use text.Mathlib.Text.{starts_with}
use zhuo_stack.Files.Keys.{UriCodec, strip_leading, trim_one_slash, after_prefix}
use zhuo_stack.Prelude.{
  ℕ, Bool, true, false, not, ◌&&◌, ◌||◌, Option, none, some, List, [], ◌∷◌, String, ◌==◌,
  if◌then◌else◌, any, eqb, ltb, filter, is_some,
}
use zhuo_stack.Auth.Account.{Role, admin, user}
use zhuo_stack.Guards.{Status, is_active, text_is}

pub record SysFile : Type 0 where
  pub id : String
  pub file_name : String
  pub original_name : String
  pub file_path : String
  pub url : String
  pub file_size : ℕ
  pub mime_type : String
  pub ext : String
  pub storage_type : String
  pub md5 : String
  pub status : Status
  pub remark : Option String
  pub create_by : Option String

pub record UploadResult : Type 0 where
  pub id : String
  pub url : String
  pub original_name : String
  pub file_size : ℕ

pub record FileActor : Type 0 where
  pub id : String
  pub role : Role

pub record UpdateFileDto : Type 0 where
  pub remark : Option String
  pub status : Option Status

pub record QueryFileDto : Type 0 where
  pub page : ℕ
  pub page_size : ℕ
  pub search : Option String
  pub mime_type : Option String

pub record FileConfig : Type 0 where
  pub max_file_size : ℕ
  pub allowed_mime_types : List String

abbrev pub file_id : SysFile → String
file_id f = f.id

abbrev pub mime_extensions : List (String × String)
mime_extensions =
    ("image/jpeg", "jpg")
    ∷ ("image/png", "png")
    ∷ ("image/gif", "gif")
    ∷ ("image/webp", "webp")
    ∷ ("application/pdf", "pdf")
    ∷ ("application/vnd.openxmlformats-officedocument.wordprocessingml.document", "docx")
    ∷ ("application/vnd.openxmlformats-officedocument.spreadsheetml.sheet", "xlsx")
    ∷ ("text/plain", "txt")
    ∷ ("text/csv", "csv")
    ∷ ("application/zip", "zip")
    ∷ ("video/mp4", "mp4")
    ∷ ("video/webm", "webm")
    ∷ ("audio/mpeg", "mp3")
    ∷ []

abbrev pub extension_in : String → List (String × String) → Option String
extension_in mime [] = none
extension_in mime (x ∷ xs) =
    let rest = extension_in mime xs in if x.0 == mime then some x.1 else rest

-- `MIME_EXTENSION_MAP[mimetype]`
unfoldable pub mime_extension : String → Option String
mime_extension mime = extension_in mime mime_extensions

unfoldable pub is_text_mime : String → Bool
is_text_mime mime = mime == "text/plain" || mime == "text/csv"

abbrev pub includes : List String → String → Bool
includes xs s = any (λ x. x == s) xs

-- The types that a list of files of the kind `document` shows.
abbrev pub document_types : List String
document_types =
    "application/pdf" ∷ "application/msword"
    ∷ "application/vnd.openxmlformats-officedocument.wordprocessingml.document"
    ∷ "application/vnd.ms-excel"
    ∷ "application/vnd.openxmlformats-officedocument.spreadsheetml.sheet" ∷ []

abbrev pub image_types : List String
image_types = "image/jpeg" ∷ "image/png" ∷ "image/gif" ∷ "image/webp" ∷ []

-- The characters of a name but those that control a terminal.
unfoldable pub printable : String → String
printable String.[] = ""
printable (String.◌∷◌ c s) =
    let rest = printable s in
    if ltb 31 (code c) && not (eqb (code c) 127) then String.◌∷◌ c rest else rest

-- What the check of the constructor throws on.
unfoldable pub unsupported_mime_types : FileConfig → List String
unsupported_mime_types config =
    filter (λ m. not (is_some (mime_extension m))) config.allowed_mime_types

-- What the libraries answer on names and bytes.
pub record Inspector (Bytes : Type 0) : Type 0 where
  pub byte_length : Bytes → ℕ
  pub is_utf8 : Bytes → Bool
  pub includes_zero : Bytes → Bool
  pub is_of_type : String → Bytes → Bool
  pub md5 : Bytes → String
  pub basename : String → String
  -- A file as a stream: its chunks, whether a decoder accepts those that came so far, and the bytes
  -- at its beginning.
  pub chunks : Bytes → List Bytes
  pub decodes : List Bytes → Bool
  pub first_bytes : ℕ → Bytes → Bytes
  pub first_units : ℕ → String → String

-- What an upload draws: the directory of the day, a UUID, and the id of the row.
pub record Draws : Type 0 where
  pub date_dir : String
  pub uuid : String
  pub id : String

abbrev pub is_admin_actor : FileActor → Bool
is_admin_actor actor = elim actor.role [ admin ↦ true | user ↦ false ]

abbrev pub may_access : FileActor → SysFile → Bool
may_access actor f = is_admin_actor actor || text_is f.create_by actor.id

-- `none` is the error that `decodeURIComponent` throws.
unfoldable pub get_storage_key : UriCodec → String → SysFile → Option String
get_storage_key uri url_prefix f =
    if not (f.storage_type == "local")
    then some (strip_leading f.file_path)
    else elim (after_prefix (trim_one_slash url_prefix ++ "/") f.url) [
      | some encoded ↦ uri.decode encoded
      | none ↦ some (strip_leading f.file_path)
    ]

unfoldable pub to_access_url : SysFile → SysFile
to_access_url f =
    if not (f.storage_type == "local")
    then f
    else record f { url = "/api/system/file/content/" ++ f.id }

abbrev pub to_upload_result : SysFile → UploadResult
to_upload_result f = record {
  id = f.id;
  url = (to_access_url f).url;
  original_name = f.original_name;
  file_size = f.file_size;
}

abbrev pub mime_matches : Option String → SysFile → Bool
mime_matches none f = true
mime_matches (some m) f =
    if m == "image"
    then starts_with f.mime_type "image/"
    else if m == "video"
    then starts_with f.mime_type "video/"
    else if m == "audio"
    then starts_with f.mime_type "audio/"
    else if m == "document"
    then includes document_types f.mime_type
    else true

unfoldable pub file_where : (String → String → Bool) → QueryFileDto → FileActor → SysFile → Bool
file_where contains query actor f =
    is_active f.status
    && (may_access actor f
        && ((elim query.search [
          | none ↦ true
          | some s ↦ s == "" || (contains f.original_name s || contains f.file_name s)
        ])
            && mime_matches query.mime_type f))

abbrev pub updated_file : UpdateFileDto → SysFile → SysFile
updated_file dto f = record f {
  remark = (elim dto.remark [ none ↦ f.remark | some r ↦ some r ]);
  status = (elim dto.status [ none ↦ f.status | some s ↦ s ]);
}
