-- ===== src/Files/Uploads.antt =====
-- Uploads that are read from a temporary file, in
-- apps/api/src/modules/system/file/file.service.ts.
use Prim.Native.String.{◌++◌}
use zhuo_stack.Prelude.{ℕ, Bool, not, Option, List, [], ◌∷◌, String, if◌then◌else◌, ltb}
use zhuo_stack.Prelude.Action.{Action, pure, throw_if, bad_request, ◌>>=◌, ◌>>◌}
use zhuo_stack.Database.Table.{Table}
use zhuo_stack.Files.Keys.{UriCodec}
use zhuo_stack.Files.Storage.{Backend, StorageConfig, put}
use zhuo_stack.Files.{
  SysFile, UploadResult, FileConfig, Inspector, Draws, FileWorld, image_types, includes,
  is_text_mime, to_upload_result, on_objects, extension_text, new_file, create_file_record,
}

abbrev append_one : {A : Type 0} → List A → A → List A
append_one [] c = c ∷ []
append_one (x ∷ xs) c = x ∷ append_one xs c

module _ (uri : UriCodec) (backend : Backend) (without_scheme : String → String)
    (storage : StorageConfig) (inspector : Inspector backend.Bytes) (config : FileConfig)
    (file_table : Table SysFile) where
  abbrev pub W : Type 0
  W = FileWorld uri backend without_scheme storage inspector config file_table

  -- The chunks of a text, behind those that were read.
  unfoldable validate_chunks : List backend.Bytes → List backend.Bytes → Action W (Unit {0})
  validate_chunks seen [] = pure tt
  validate_chunks seen (c ∷ cs) = do
    throw_if (inspector.includes_zero c) (bad_request "文本文件包含非法的二进制内容")
    throw_if (not (inspector.decodes (append_one seen c))) (bad_request "文本文件必须使用有效的 UTF-8 编码")
    validate_chunks (append_one seen c) cs

  -- `validateFileContentFromPath`, on the bytes of the temporary file.
  unfoldable validate_file_content_from_path : String → backend.Bytes → Action W (Unit {0})
  validate_file_content_from_path mime body =
      if is_text_mime mime
      then (do
        validate_chunks [] (inspector.chunks body)
        throw_if (not (inspector.is_utf8 body)) (bad_request "文本文件必须使用有效的 UTF-8 编码"))
      else throw_if (not (inspector.is_of_type mime (inspector.first_bytes 8192 body)))
          (bad_request "文件实际内容与声明类型不一致")

  -- An upload that was written to a temporary file of `file_size` bytes.
  unfoldable save_uploaded_file :
      Bool → String → String → backend.Bytes → ℕ → Option String → Draws → Action W SysFile
  save_uploaded_file saves filename mime body file_size create_by draws = do
    throw_if (not (includes config.allowed_mime_types mime)) (bad_request ("不支持的文件类型: " ++ mime))
    throw_if (ltb config.max_file_size file_size) (bad_request "文件大小超过限制")
    validate_file_content_from_path mime body
    stored ← on_objects uri backend without_scheme storage inspector config file_table (
        put uri backend without_scheme storage
          (draws.date_dir
            ++ ("/"
                ++ (draws.uuid
                    ++ ("."
                        ++ extension_text uri backend without_scheme storage inspector config
                            file_table mime))))
          body)
    create_file_record uri backend without_scheme storage inspector config file_table saves
        (record (new_file uri backend without_scheme storage inspector config file_table filename
          mime body create_by draws stored) { file_size = file_size })

  unfoldable save_uploaded_image :
      Bool → String → String → backend.Bytes → ℕ → Option String → Draws → Action W UploadResult
  save_uploaded_image saves filename mime body file_size create_by draws = do
    throw_if (not (includes image_types mime)) (bad_request "仅支持 JPG/PNG/GIF/WebP 格式的图片")
    throw_if (ltb 5242880 file_size) (bad_request "图片大小超过限制: 5MB")
    f ← save_uploaded_file saves filename mime body file_size create_by draws
    pure (to_upload_result f)
