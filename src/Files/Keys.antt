-- ===== src/Files/Keys.antt =====
-- The texts of apps/api/src/modules/system/file/storage/file-storage.service.ts: the keys of the
-- objects and their addresses. How the language encodes a part of an address is an argument.
use Prim.Native.Char.{Char, code}
use Prim.Native.String.{◌++◌}
use zhuo_stack.Prelude.{
  ◌≡◌, Bool, false, ◌&&◌, Option, none, some, List, [], ◌∷◌, map, String, ◌==◌, if◌then◌else◌, eqb,
}

-- `encodeURIComponent`, and `decodeURIComponent`, which throws on a text that is not well formed.
pub record UriCodec : Type 0 where
  pub encode : String → String
  pub decode : String → Option String
  pub decode-encode : (s : String) → decode (encode s) ≡ some s
  -- A slash stands for itself.
  pub decode-slash :
      (s t : String) {x y : String}
      → decode s ≡ some x
      → decode t ≡ some y
      → decode (s ++ ("/" ++ t)) ≡ some (x ++ ("/" ++ y))
  -- The code of a text is not empty where the text is not, and has no slash.
  pub encode-first :
      (c : Char) (s : String)
      → (d : Char) × (t : String) × (encode (String.◌∷◌ c s) ≡ String.◌∷◌ d t)
        × (eqb (code d) b'/' ≡ false)
  pub encode-empty : encode "" ≡ ""

abbrev pub is_slash : Char → Bool
is_slash c = eqb (code c) b'/'

-- `replace(/^\/+/, '')`
unfoldable pub strip_leading : String → String
strip_leading String.[] = ""
strip_leading (String.◌∷◌ c s) = if is_slash c then strip_leading s else String.◌∷◌ c s

-- `replace(/\/+$/, '')`
unfoldable pub trim_trailing_slash : String → String
trim_trailing_slash String.[] = ""
trim_trailing_slash (String.◌∷◌ c s) =
    let rest = trim_trailing_slash s in if rest == "" && is_slash c then "" else String.◌∷◌ c rest

-- `replace(/\/$/, '')`
unfoldable pub trim_one_slash : String → String
trim_one_slash String.[] = ""
trim_one_slash (String.◌∷◌ c String.[]) = if is_slash c then "" else String.◌∷◌ c String.[]
trim_one_slash (String.◌∷◌ c (String.◌∷◌ d s)) = String.◌∷◌ c (trim_one_slash (String.◌∷◌ d s))

-- `startsWith` and the `slice` behind it.
unfoldable pub after_prefix : String → String → Option String
after_prefix String.[] s = some s
after_prefix (String.◌∷◌ c p) String.[] = none
after_prefix (String.◌∷◌ c p) (String.◌∷◌ d s) =
    let rest = after_prefix p s in if eqb (code c) (code d) then rest else none

abbrev pub onto_first : Char → List String → List String
onto_first c [] = String.◌∷◌ c String.[] ∷ []
onto_first c (x ∷ xs) = String.◌∷◌ c x ∷ xs

-- `split('/')` and `join('/')`
unfoldable pub split_slash : String → List String
split_slash String.[] = "" ∷ []
split_slash (String.◌∷◌ c s) =
    let rest = split_slash s in if is_slash c then "" ∷ rest else onto_first c rest

unfoldable pub join_slash : List String → String
join_slash [] = ""
join_slash (x ∷ []) = x
join_slash (x ∷ y ∷ ys) = x ++ ("/" ++ join_slash (y ∷ ys))

unfoldable pub encode_object_key : UriCodec → String → String
encode_object_key uri key = join_slash (map uri.encode (split_slash key))

-- `replace(/^\/+|\/+$/g, '')`, on a setting without white space around it.
unfoldable pub object_prefix : String → String
object_prefix setting = trim_trailing_slash (strip_leading setting)

unfoldable pub with_object_prefix : String → String → String
with_object_prefix setting key =
    let normalized = strip_leading key in
    if object_prefix setting == "" then normalized else object_prefix setting ++ ("/" ++ normalized)
