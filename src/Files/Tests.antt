-- ===== src/Files/Tests.antt =====
-- The files at a concrete storage.
mod Codec
mod Memory
use Prim.Native.String.{len}
use zhuo_stack.Prelude.{
  ℕ, ◌≡◌, ◌≢◌, refl, sym, ap, subst, ◌∙◌, ◌⊎◌, inl, inr, Bool, true, false, Option, none, some,
  List, [], ◌∷◌, String, arith, All, In, Bool-cases, zero, suc, ◌==◌, is_some, Option-cases,
}
use zhuo_stack.Prelude.Action.{ok, err, internal, ◌>>=◌}
use zhuo_stack.Database.Table.{memory_table}
use zhuo_stack.Auth.Account.{user}
use zhuo_stack.Guards.{active, inactive}
use zhuo_stack.Files.Storage.{
  get, StorageConfig, FileStorageType, local, aliyun, tencent, Place, CloudConfig, is_fulfilled,
  put, place_of, resolve_local_path, parse_record_storage_type, Body, read_body,
}
use zhuo_stack.Files.Keys.{
  strip_leading, trim_trailing_slash, trim_one_slash, after_prefix, encode_object_key, split_slash,
  join_slash, with_object_prefix, object_prefix,
}
use zhuo_stack.Files.{
  SysFile, FileActor, FileConfig, Inspector, Draws, FileWorld, get_storage_key, save_file,
  get_download_info, remove, remove_batch, validate_file_content, on_objects, create_file_record,
  is_text_mime, printable, sanitize_original_name, mime_extension, new_file,
}
use zhuo_stack.Files.Download.{W, info_of, save_file-get_download_info}
use zhuo_stack.Files.Places.{KeepsOnFailure, file_place, read_file}
use zhuo_stack.Files.Intact.{Intact, AllApart}
use zhuo_stack.Files.Ownership.{removes, removes_batch, act, act-Spares}
use zhuo_stack.Files.Requests.{act-Intact}
use zhuo_stack.Files.Hiding.{remove-hidden}
use zhuo_stack.Files.Tests.Codec.{percent_codec, decode_from, encode}
use zhuo_stack.Files.Tests.Memory.{memory_backend, is_held, put_cell-same}

abbrev cloud : CloudConfig
cloud = record { public_url = none; bucket = "b"; endpoint = none; region = "r" }

abbrev disk : StorageConfig
disk = record {
  storage_type = local;
  url_prefix = "/files/";
  object_prefix = "";
  aliyun_oss = cloud;
  tencent_cos = cloud;
}

abbrev plain : String → String
plain s = s

abbrev inspector : Inspector String
inspector = record {
  byte_length = len;
  is_utf8 = λ b. true;
  includes_zero = λ b. false;
  is_of_type = λ m b. true;
  md5 = λ b. b;
  chunks = λ b. b ∷ [];
  decodes = λ bs. true;
  first_bytes = λ n b. b;
  basename = λ n. n;
  first_units = λ n s. s;
}

abbrev config : FileConfig
config = record { max_file_size = 100; allowed_mime_types = "text/plain" ∷ [] }

abbrev note : SysFile
note = record {
  id = "f1";
  file_name = "a.txt";
  original_name = "a.txt";
  file_path = "a.txt";
  url = "/files/a.txt";
  file_size = 2;
  mime_type = "text/plain";
  ext = "txt";
  storage_type = "local";
  md5 = "hi";
  status = active;
  remark = none;
  create_by = some "u1";
}

abbrev held : SysFile
held = record note { id = "f2"; file_path = "held.txt"; url = "/files/held.txt" }

abbrev legacy : SysFile
legacy = record note { id = "f3"; file_path = "x"; url = "/files/100%.txt" }

abbrev owner : FileActor
owner = record { id = "u1"; role = user }

abbrev stranger : FileActor
stranger = record { id = "u2"; role = user }

abbrev Here : Type 0
Here = W percent_codec memory_backend plain disk inspector config (memory_table SysFile)

abbrev start : Here
start = record { files = note ∷ held ∷ []; objects = λ t k. some "hi" }

KeepsOnFailure-memory : KeepsOnFailure percent_codec memory_backend plain disk
KeepsOnFailure-memory t k s h = elim (Bool-cases (is_held k)) [
  | inl e ↦ rw e refl
  | inr e ↦ elim (Option-cases (s t k)) [
    | inl none_there ↦ rw e (put_cell-same t k none s ∙ sym none_there)
    | inr (v, there) ↦ absurd (fulfilled (rw (e, there) at h))
  ]
]
  where
    fulfilled : true ≡ false → ⊥
    fulfilled e = absurd (ground arith)

act-Spares_example :
    In note
      (act percent_codec memory_backend plain disk inspector config
        (memory_table SysFile)
        (removes true "f1")
        stranger
        start).files
act-Spares_example =
    act-Spares percent_codec memory_backend plain disk inspector config (memory_table SysFile)
      (removes true "f1") stranger start note (refl, (refl, tt)) (0, refl) refl

malformed : get_storage_key percent_codec "/files/" legacy ≡ none
unfolding get_storage_key trim_one_slash after_prefix decode_from
malformed = refl

remove-hidden_example :
    ((remove percent_codec memory_backend plain disk inspector config
        (memory_table SysFile)
        true
        "f3"
        owner
        (record start { files = legacy ∷ [] })).0
      ≡ err (internal "URI malformed"))
    × In
        (record legacy { status = inactive })
        (remove percent_codec memory_backend plain disk inspector config
          (memory_table SysFile)
          true
          "f3"
          owner
          (record start { files = legacy ∷ [] })).1.files
remove-hidden_example =
    remove-hidden percent_codec memory_backend plain disk inspector config (memory_table SysFile)
      true "f3" owner (record start { files = legacy ∷ [] }) legacy refl refl malformed

in_all : {A : Type 0} (P : A → Type 0) (xs : List A) (x : A) → All P xs → In x xs → P x
in_all P [] x all (i, e) = absurd (ground arith)
in_all P (y ∷ ys) x (p, all) (zero, e) = subst P (ground arith) p
in_all P (y ∷ ys) x (p, all) (suc i, e) = in_all P ys x all (i, e)

readable :
    All
      (λ r. is_some (read_file percent_codec memory_backend plain disk r start.objects) ≡ true)
      start.files
unfolding get_storage_key trim_one_slash after_prefix decode_from get parse_record_storage_type
    place_of resolve_local_path strip_leading
readable = (refl, (refl, tt))

place_note :
    file_place percent_codec memory_backend plain disk note ≡ some (local, "/uploads/a.txt")
unfolding get_storage_key trim_one_slash after_prefix decode_from parse_record_storage_type place_of
    resolve_local_path strip_leading
place_note = refl

place_held :
    file_place percent_codec memory_backend plain disk held ≡ some (local, "/uploads/held.txt")
unfolding get_storage_key trim_one_slash after_prefix decode_from parse_record_storage_type place_of
    resolve_local_path strip_leading
place_held = refl

elsewhere :
    (p : Place)
    → some (local, "/uploads/a.txt") ≡ some p
    → some (local, "/uploads/held.txt") ≡ some p
    → ⊥
elsewhere p e f = differ (ap at_note (e ∙ sym f))
  where
    at_note : Option Place → Bool
    at_note none = true
    at_note (some q) = q.1 == "/uploads/a.txt"

    differ : true ≡ false → ⊥
    differ h = absurd (ground (arith, h))

which : (f : SysFile) → In f (note ∷ held ∷ []) → (note ≡ f) ⊎ (held ≡ f)
which f (zero, e) = inl (ground (arith, e))
which f (suc zero, e) = inr (ground (arith, e))
which f (suc (suc i), e) = absurd (ground (arith, e))

-- Two files, of which the storage does not let the second go.
start-Intact :
    Intact percent_codec memory_backend plain disk inspector config (memory_table SysFile) start
start-Intact r at on =
    in_all (λ r. is_some (read_file percent_codec memory_backend plain disk r start.objects) ≡ true)
      start.files r readable at

start-AllApart :
    AllApart percent_codec memory_backend plain disk inspector config (memory_table SysFile) start
start-AllApart f g at there differ p e e' = elim (which f at) [
  | inl a ↦ elim (which g there) [
    | inl b ↦ differ (ap (λ (x : SysFile). x.id) (sym a ∙ b))
    | inr b ↦ elsewhere p (sym place_note ∙ (ap place a ∙ e)) (sym place_held ∙ (ap place b ∙ e'))
  ]
  | inr a ↦ elim (which g there) [
    | inl b ↦ elsewhere p (sym place_note ∙ (ap place b ∙ e')) (sym place_held ∙ (ap place a ∙ e))
    | inr b ↦ differ (ap (λ (x : SysFile). x.id) (sym a ∙ b))
  ]
]
  where
    place : SysFile → Option Place
    place = file_place percent_codec memory_backend plain disk

act-Intact_example :
    Intact percent_codec memory_backend plain disk inspector config (memory_table SysFile) (
      act percent_codec memory_backend plain disk inspector config
        (memory_table SysFile)
        (removes_batch true ("f1" ∷ "f2" ∷ []))
        owner
        start)
act-Intact_example =
    act-Intact percent_codec memory_backend plain disk inspector config (memory_table SysFile)
      (removes_batch true ("f1" ∷ "f2" ∷ [])) owner start KeepsOnFailure-memory (refl, (refl, tt))
      start-AllApart start-Intact

abbrev draws : Draws
draws = record { date_dir = "2024/01/02"; uuid = "u-u-i-d"; id = "f9" }

abbrev uploaded : SysFile
uploaded = record {
  id = "f9";
  file_name = "u-u-i-d.txt";
  original_name = "n.txt";
  file_path = "2024/01/02/u-u-i-d.txt";
  url = "/files/2024/01/02/u-u-i-d.txt";
  file_size = 4;
  mime_type = "text/plain";
  ext = "txt";
  storage_type = "local";
  md5 = "text";
  status = active;
  remark = none;
  create_by = some "u1";
}

abbrev after_upload : Here
after_upload =
    (save_file percent_codec memory_backend plain disk inspector config (memory_table SysFile) true
      "n.txt" "text/plain" "text" (some "u1") draws start).1

saved :
    save_file percent_codec memory_backend plain disk inspector config
      (memory_table SysFile)
      true
      "n.txt"
      "text/plain"
      "text"
      (some "u1")
      draws
      start
    ≡ (ok uploaded, after_upload)
unfolding save_file validate_file_content on_objects create_file_record is_text_mime printable
    sanitize_original_name mime_extension put place_of resolve_local_path strip_leading
    trim_trailing_slash encode_object_key split_slash join_slash with_object_prefix object_prefix
    encode ◌>>=◌
saved = refl

save_file-get_download_info_example :
    (opened : Body String) × (get_download_info percent_codec memory_backend plain disk inspector
        config
        (memory_table SysFile)
        "f9"
        owner
        after_upload
      ≡ (
        ok (
            info_of percent_codec memory_backend plain disk inspector config
              (memory_table SysFile)
              uploaded
              opened),
        after_upload,
      ))
    × (read_body percent_codec memory_backend plain disk opened after_upload.objects ≡ some "text")
    × (uploaded.file_size ≡ inspector.byte_length "text")
    × (uploaded.mime_type ≡ "text/plain")
save_file-get_download_info_example =
    save_file-get_download_info percent_codec memory_backend plain disk inspector config
      (memory_table SysFile) "n.txt" "text/plain" "text" (some "u1") draws start after_upload
      uploaded owner refl saved refl
