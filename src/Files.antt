-- ===== src/Files.antt =====
-- apps/api/src/modules/system/file/file.service.ts: the files of the users. A row of the database
-- and an object of the storage make a file. What the libraries answer on the bytes, how the database
-- compares texts, and whether a statement that saves or deletes rows fails are arguments. The
-- messages about sizes leave out the size.
pub mod Keys
pub mod Storage
pub mod Addresses
pub mod Uploads
pub mod Stored
pub mod Download
pub mod Rows
pub mod Ownership
pub mod Places
pub mod Objects
pub mod Changes
pub mod Intact
pub mod Requests
pub mod Hiding
mod Tests
mod Data
use mathlib.Core.Option
use text.Mathlib.Text.{starts_with}
use Prim.Native.String.{◌++◌}
use zhuo_stack.Prelude.{
  ℕ, Bool, true, false, not, ◌&&◌, ◌||◌, Option, none, some, List, [], ◌∷◌, map, String, ◌==◌,
  if◌then◌else◌, any, ltb, eqb, filter, length, is_some,
}
use zhuo_stack.Prelude.Action.{
  Action, Result, ok, err, pure, throw, throw_if, or_throw, gets, modify_state, bad_request,
  not_found, internal, ◌>>=◌, ◌>>◌,
}
use zhuo_stack.Database.Table.{Table}
use zhuo_stack.Auth.Account.{Role, admin, user}
use zhuo_stack.Guards.{Status, active, inactive, is_active, text_is}
use zhuo_stack.Notifications.Query.{Pagination, ceil_div, page_of, distinct, one_of}
use zhuo_stack.Files.Keys.{UriCodec, strip_leading, trim_one_slash, after_prefix}
use zhuo_stack.Files.Storage.{Backend, StorageConfig, StoredObject, Body, put, open_body, delete}
unfoldable pub use Data.*

pub record DownloadInfo (Bytes : Type 0) : Type 0 where
  pub body : Body Bytes
  pub content_length : ℕ
  pub original_name : String
  pub mime_type : String

module _ (uri : UriCodec) (backend : Backend) (without_scheme : String → String)
    (storage : StorageConfig) (inspector : Inspector backend.Bytes) (config : FileConfig)
    (file_table : Table SysFile) where
  pub record FileWorld : Type 0 where
    pub files : file_table.State
    pub objects : backend.State

  unfoldable pub on_objects : {A : Type 0} → Action backend.State A → Action FileWorld A
  on_objects m w = let (r, objects') = m w.objects in (r, record w { objects = objects' })

  -- `validateFileContent`
  unfoldable pub validate_file_content : String → backend.Bytes → Action FileWorld (Unit {0})
  validate_file_content mime body =
      if is_text_mime mime
      then (do
        throw_if (not (inspector.is_utf8 body)) (bad_request "文本文件必须使用有效的 UTF-8 编码")
        throw_if (inspector.includes_zero body) (bad_request "文本文件包含非法的二进制内容"))
      else throw_if (not (inspector.is_of_type mime body)) (bad_request "文件实际内容与声明类型不一致")

  unfoldable pub sanitize_original_name : String → String
  sanitize_original_name name =
      let sanitized = inspector.first_units 255 (printable (inspector.basename name)) in
      if sanitized == "" then "file" else sanitized

  -- The row of an upload. `undefined` in a template is the text "undefined".
  abbrev pub extension_text : String → String
  extension_text mime = elim (mime_extension mime) [ none ↦ "undefined" | some e ↦ e ]

  abbrev pub new_file :
      String → String → backend.Bytes → Option String → Draws → StoredObject → SysFile
  new_file filename mime body create_by draws stored = record {
    id = draws.id;
    file_name = draws.uuid ++ ("." ++ extension_text mime);
    original_name = sanitize_original_name filename;
    file_path = stored.key;
    url = stored.url;
    file_size = inspector.byte_length body;
    mime_type = mime;
    ext = extension_text mime;
    storage_type = stored.storage_type;
    md5 = inspector.md5 body;
    status = active;
    remark = none;
    create_by = create_by;
  }

  -- A row that cannot be saved takes its object with it, as far as the storage deletes it.
  unfoldable pub create_file_record : Bool → SysFile → Action FileWorld SysFile
  create_file_record saves f w =
      if saves then (ok f, record w { files = file_table.create f w.files }) else (
        err (internal "sysFile.create"),
        record w {
          objects =
              (delete uri backend without_scheme storage f.storage_type f.file_path w.objects).1;
        },
      )

  unfoldable pub save_file :
      Bool → String → String → backend.Bytes → Option String → Draws → Action FileWorld SysFile
  save_file saves filename mime body create_by draws = do
    throw_if (not (includes config.allowed_mime_types mime)) (bad_request ("不支持的文件类型: " ++ mime))
    throw_if (ltb config.max_file_size (inspector.byte_length body)) (bad_request "文件大小超过限制")
    validate_file_content mime body
    stored ← on_objects (
        put uri backend without_scheme storage
          (draws.date_dir ++ ("/" ++ (draws.uuid ++ ("." ++ extension_text mime)))) body)
    create_file_record saves (new_file filename mime body create_by draws stored)

  unfoldable pub save_image :
      Bool → String → String → backend.Bytes → Option String → Draws → Action FileWorld UploadResult
  save_image saves filename mime body create_by draws = do
    throw_if (not (includes image_types mime)) (bad_request "仅支持 JPG/PNG/GIF/WebP 格式的图片")
    throw_if (ltb 5242880 (inspector.byte_length body)) (bad_request "图片大小超过限制: 5MB")
    f ← save_file saves filename mime body create_by draws
    pure (to_upload_result f)

  unfoldable pub find_all :
      (String → String → Bool) → QueryFileDto → FileActor → FileWorld → List SysFile × Pagination
  find_all contains query actor w =
      let total = file_table.count (file_where contains query actor) w.files in
      (
        page_of query.page query.page_size
            (file_table.find_many (file_where contains query actor) w.files),
        record {
          total = total;
          page = query.page;
          page_size = query.page_size;
          total_pages = ceil_div total query.page_size;
        },
      )

  unfoldable pub find_one : String → FileActor → Action FileWorld SysFile
  find_one id actor = do
    found ← gets (λ w. file_table.find_first (λ f. f.id == id && is_active f.status) w.files)
    f ← or_throw found (not_found ("文件 " ++ (id ++ " 不存在")))
    throw_if (not (may_access actor f)) (not_found ("文件 " ++ (id ++ " 不存在")))
    pure f

  abbrev pub change_files : (SysFile → Bool) → (SysFile → SysFile) → Action FileWorld (Unit {0})
  change_files p f = modify_state (λ w. record w { files = file_table.update_many p f w.files })

  unfoldable pub update : String → UpdateFileDto → FileActor → Action FileWorld SysFile
  update id dto actor = do
    f ← find_one id actor
    change_files (λ x. x.id == id) (updated_file dto)
    pure (updated_file dto f)

  unfoldable pub get_download_info :
      String → FileActor → Action FileWorld (DownloadInfo backend.Bytes)
  get_download_info id actor = do
    f ← find_one id actor
    opened ← gets (λ w. elim (get_storage_key uri storage.url_prefix f) [
      | none ↦ none
      | some key ↦ open_body uri backend without_scheme storage f.storage_type key w.objects
    ])
    body ← or_throw opened (not_found ("文件 " ++ (f.original_name ++ " 在存储中不存在")))
    pure (record {
      body = body;
      content_length = f.file_size;
      original_name = f.original_name;
      mime_type = f.mime_type;
    })

  -- The deletions that `files.map` starts, with those that are fulfilled; `none` is a key that
  -- cannot be decoded, which throws when some are started already.
  unfoldable pub delete_objects : List SysFile → backend.State → Option (List Bool) × backend.State
  delete_objects [] s = (some [], s)
  delete_objects (f ∷ fs) s =
      elim (get_storage_key uri storage.url_prefix f) as (λ _. Option (List Bool) × backend.State) [
        | none ↦ (none, s)
        | some key ↦
            (let (done, s') = delete uri backend without_scheme storage f.storage_type key s in
              let (rest, s'') = delete_objects fs s' in (Option.map (λ bs. done ∷ bs) rest, s''))
      ]

  -- The ids of the files with the outcome `wanted`.
  abbrev pub ids_where : Bool → List SysFile → List Bool → List String
  ids_where wanted [] bs = []
  ids_where wanted (f ∷ fs) [] = []
  ids_where wanted (f ∷ fs) (b ∷ bs) =
      let rest = ids_where wanted fs bs in
      if (if b then wanted else not wanted) then f.id ∷ rest else rest

  abbrev pub is_empty : List String → Bool
  is_empty [] = true
  is_empty (x ∷ xs) = false

  -- The steps after the deletions. `deletes` is whether the database deletes the rows.
  unfoldable pub settle_rows : Bool → List SysFile → List Bool → Action FileWorld ℕ
  settle_rows deletes fs outcomes = do
    let successful_ids = ids_where true fs outcomes
    let failed_ids = ids_where false fs outcomes
    throw_if (not (is_empty successful_ids) && not deletes) (internal "文件记录删除失败，请稍后重试")
    modify_state (λ w. record w {
      files =
          if is_empty successful_ids
          then w.files
          else file_table.delete_many (λ f. one_of successful_ids f.id) w.files;
    })
    modify_state (λ w. record w {
      files =
          if is_empty failed_ids
          then w.files
          else file_table.update_many (λ f. one_of failed_ids f.id)
              (λ f. record f { status = active }) w.files;
    })
    throw_if (not (is_empty failed_ids)) (internal "部分文件删除失败，请稍后重试")
    pure (length successful_ids)

  unfoldable pub remove_files : Bool → List SysFile → Action FileWorld ℕ
  remove_files deletes fs = do
    change_files (λ f. one_of (map (λ g. g.id) fs) f.id && is_active f.status)
        (λ f. record f { status = inactive })
    outcomes ← on_objects (λ s. let (outcomes, s') = delete_objects fs s in (ok outcomes, s'))
    known ← or_throw outcomes (internal "URI malformed")
    settle_rows deletes fs known

  unfoldable pub remove : Bool → String → FileActor → Action FileWorld ℕ
  remove deletes id actor = do f ← find_one id actor; remove_files deletes (f ∷ [])

  unfoldable pub remove_batch : Bool → List String → FileActor → Action FileWorld ℕ
  remove_batch deletes ids actor = do
    found ← gets (λ w.
        file_table.find_many (λ f. one_of ids f.id && (is_active f.status && may_access actor f))
          w.files)
    throw_if (not (eqb (length found) (length (distinct ids)))) (not_found "部分文件不存在或无权删除")
    remove_files deletes found
