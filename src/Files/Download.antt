-- ===== src/Files/Download.antt =====
-- A file that was uploaded is downloaded as it was, in
-- apps/api/src/modules/system/file/.
use Prim.Native.String
use zhuo_stack.Prelude.{
  ◌≡◌, refl, sym, ap, ◌∙◌, inl, inr, Bool, true, false, not, ◌&&◌, Option, none, some, List, [],
  ◌∷◌, ◌++◌, String, ◌==◌, arith, any, find?, eq_iff, any-append, ◌||◌, Bool-cases,
}
use zhuo_stack.Prelude.Action.{
  Action, ok, pure, or_throw, gets, throw_if-pass, not_found, ◌>>=◌, >>=-ok_elim, throw_if-ok_elim,
  >>=-run,
}
use zhuo_stack.Database.Table.{Table}
use zhuo_stack.Guards.{is_active}
use zhuo_stack.Files.Keys.{UriCodec, with_object_prefix}
use zhuo_stack.Files.Storage.{
  Backend, StorageConfig, StoredObject, Body, put, get, open_body, read_body,
}
use zhuo_stack.Files.Addresses.{with_object_prefix-NoSlash}
use zhuo_stack.Files.{
  SysFile, DownloadInfo, FileActor, FileConfig, Inspector, Draws, FileWorld, may_access,
  get_storage_key, on_objects, new_file, create_file_record, save_file, find_one, get_download_info,
  validate_file_content, is_text_mime, extension_text,
}
use zhuo_stack.Files.Stored.{put-Stored, get_storage_key_of, get-open_body, get-stored}

-- An item is found behind others that have another key.
find-inserted :
    {A : Type 0} (q r : A → Bool) (xs ys : List A) (a : A)
    → any q xs ≡ false
    → q a ≡ true
    → r a ≡ true
    → find? (λ x. q x && r x) (xs ++ a ∷ ys) ≡ some a
find-inserted q r [] ys a n h k = ground (arith, h, k)
find-inserted q r (x ∷ xs) ys a n h k = ground (arith, find-inserted q r xs ys a, n, h, k)

module _ (uri : UriCodec) (backend : Backend) (without_scheme : String → String)
    (storage : StorageConfig) (inspector : Inspector backend.Bytes) (config : FileConfig)
    (file_table : Table SysFile) where
  abbrev pub W : Type 0
  W = FileWorld uri backend without_scheme storage inspector config file_table

  validate_file_content-same :
      (mime : String) (body : backend.Bytes) (w u : W) (x : Unit {0})
      → validate_file_content uri backend without_scheme storage inspector config file_table mime
          body w
        ≡ (ok x, u)
      → u ≡ w
  unfolding validate_file_content ◌>>=◌
  validate_file_content-same mime body w u x h = elim (Bool-cases (is_text_mime mime)) [
    | inl e ↦ ground (arith, h, e)
    | inr e ↦ ground (arith, h, e)
  ]

  on_objects-ok :
      {A : Type 0} (m : Action backend.State A) (w u : W) (a : A)
      → on_objects uri backend without_scheme storage inspector config file_table m w ≡ (ok a, u)
      → (m w.objects ≡ (ok a, u.objects)) × (u.files ≡ w.files)
  unfolding on_objects
  on_objects-ok m w u a h = (ground (arith, h), ground (arith, h))

  create_file_record-ok :
      (f g : SysFile) (w u : W)
      → create_file_record uri backend without_scheme storage inspector config file_table true f w
        ≡ (ok g, u)
      → (g ≡ f) × (u.objects ≡ w.objects) × (u.files ≡ file_table.create f w.files)
  unfolding create_file_record
  create_file_record-ok f g w u h = (ground (arith, h), ground (arith, h), ground (arith, h))

  pub find_one-run :
      (id : String) (actor : FileActor) (f : SysFile) (w : W)
      → file_table.find_first (λ x. x.id == id && is_active x.status) w.files ≡ some f
      → may_access actor f ≡ true
      → find_one uri backend without_scheme storage inspector config file_table id actor w
        ≡ (ok f, w)
  unfolding find_one
  find_one-run id actor f w found may =
      >>=-run (gets (λ v. file_table.find_first (λ x. x.id == id && is_active x.status) v.files)) _
        w (ap (λ o. (ok o, w)) found)
      ∙ >>=-run (or_throw (some f) (not_found (String.◌++◌ "文件 " (String.◌++◌ id " 不存在")))) _ w refl
      ∙ throw_if-pass (not (may_access actor f)) _ (pure f) w (ground (arith, may))

  -- The answer to a download of the row.
  abbrev pub info_of : SysFile → Body backend.Bytes → DownloadInfo backend.Bytes
  info_of f body = record {
    body = body;
    content_length = f.file_size;
    original_name = f.original_name;
    mime_type = f.mime_type;
  }

  found_download :
      (id key : String) (actor : FileActor) (f : SysFile) (body : Body backend.Bytes) (w : W)
      → find_one uri backend without_scheme storage inspector config file_table id actor w
        ≡ (ok f, w)
      → get_storage_key uri storage.url_prefix f ≡ some key
      → open_body uri backend without_scheme storage f.storage_type key w.objects ≡ some body
      → get_download_info uri backend without_scheme storage inspector config file_table id actor w
        ≡ (ok (info_of f body), w)
  unfolding get_download_info
  found_download id key actor f body w found at held =
      >>=-run (find_one uri backend without_scheme storage inspector config file_table id actor) _ w
        found
      ∙ >>=-run _ _ w (ap (λ o. (ok o, w)) (read_at (get_storage_key uri storage.url_prefix f) at))
      ∙ >>=-run
          (or_throw (some body)
            (not_found (String.◌++◌ "文件 " (String.◌++◌ f.original_name " 在存储中不存在"))))
          _ w refl
    where
      read_at :
          (o : Option String)
          → o ≡ some key
          → ◌≡◌ {A = Option (Body backend.Bytes)}
              (elim o [
                | none ↦ none
                | some k ↦ open_body uri backend without_scheme storage f.storage_type k w.objects
              ])
              (some body)
      read_at o e = rw e held

  created_found :
      (g : SysFile) (id : String) (s : file_table.State)
      → any (λ x. x.id == id) (file_table.rows s) ≡ false
      → g.id ≡ id
      → is_active g.status ≡ true
      → file_table.find_first (λ x. x.id == id && is_active x.status) (file_table.create g s)
        ≡ some g
  created_found g id s fresh own on =
      let (xs, ys, before, after) = file_table.rows-create g s in
      let split : (any (λ x. x.id == id) xs || any (λ x. x.id == id) ys) ≡ false =
        sym (any-append (λ x. x.id == id) xs ys)
        ∙ (ap (any (λ x. x.id == id)) (sym before) ∙ fresh) in
      file_table.find_first-rows _ (file_table.create g s)
      ∙ rw after (
          find-inserted (λ x. x.id == id) (λ x. is_active x.status) xs ys g (ground (arith, split))
            ((eq_iff g.id id).1 own) on)

  -- A file that was uploaded, under an id that no other file has, is downloaded by whoever may
  -- access it: the body of the answer, a stream of the disk or the bytes from a cloud, reads as the
  -- bytes that were uploaded, the answer has their length, their type and the name of the upload's
  -- row, and the download changes nothing.
  pub save_file-get_download_info :
      (filename mime : String) (body : backend.Bytes) (create_by : Option String) (draws : Draws)
      (w w' : W) (f : SysFile) (actor : FileActor)
      → any (λ x. x.id == draws.id) (file_table.rows w.files) ≡ false
      → save_file uri backend without_scheme storage inspector config file_table true filename mime
          body create_by draws w
        ≡ (ok f, w')
      → may_access actor f ≡ true
      → (opened : Body backend.Bytes) × (get_download_info uri backend without_scheme storage
            inspector config file_table draws.id actor w'
          ≡ (ok (info_of f opened), w'))
        × (read_body uri backend without_scheme storage opened w'.objects ≡ some body)
        × (f.file_size ≡ inspector.byte_length body)
        × (f.mime_type ≡ mime)
  unfolding save_file
  save_file-get_download_info filename mime body create_by draws w w' f actor fresh h may =
      let key = String.◌++◌ draws.date_dir (
        String.◌++◌ "/" (
          String.◌++◌ draws.uuid (
            String.◌++◌ "." (
              extension_text uri backend without_scheme storage inspector config file_table
                mime)))) in
      throw_if-ok_elim _ _ _ w h (λ _ h. throw_if-ok_elim _ _ _ w h (λ _ h.
        >>=-ok_elim _ _ w h (λ t u p h.
          >>=-ok_elim
            (on_objects uri backend without_scheme storage inspector config file_table
              (put uri backend without_scheme storage key body))
            _ u h
            (λ stored v q h.
              let g =
                new_file uri backend without_scheme storage inspector config file_table filename
                  mime body create_by draws stored in
              let (written, kept) =
                on_objects-ok (put uri backend without_scheme storage key body) u v stored q in
              let there =
                put-Stored uri backend without_scheme storage key body u.objects v.objects stored
                  written in
              let (new, objects, files) = create_file_record-ok g f v w' h in
              let same = validate_file_content-same mime body w u t p in
              let unknown : any (λ x. x.id == draws.id) (file_table.rows v.files) ≡ false =
                rw (kept, ap (λ (x : W). x.files) same) fresh in
              let found : file_table.find_first (λ x. x.id == draws.id && is_active x.status)
                    w'.files
                  ≡ some f =
                rw (files, new) (created_found g draws.id v.files unknown refl refl) in
              let is = there.3 in
              let nk = with_object_prefix storage.object_prefix key in
              let known : get_storage_key uri storage.url_prefix f ≡ some nk = rw new (
                get_storage_key_of uri backend without_scheme storage nk g
                  (with_object_prefix-NoSlash storage.object_prefix key)
                  (ap (λ (x : StoredObject). x.key) is) (ap (λ (x : StoredObject). x.url) is)
                  (ap (λ (x : StoredObject). x.storage_type) is)) in
              let readable : get uri backend without_scheme storage f.storage_type nk w'.objects
                  ≡ some body =
                rw objects (
                  get-stored uri backend without_scheme storage nk body u.objects v.objects stored f
                    there (ap (λ (x : SysFile). x.storage_type) new)) in
              let (opened, at, reads) =
                get-open_body uri backend without_scheme storage f.storage_type nk body w'.objects
                  readable in
              (
                opened,
                found_download draws.id nk actor f opened w'
                    (find_one-run draws.id actor f w' found may) known at,
                reads,
                ap (λ (x : SysFile). x.file_size) new,
                ap (λ (x : SysFile). x.mime_type) new,
              )))))
