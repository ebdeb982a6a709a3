-- ===== src/Files/Addresses.antt =====
-- The key of a stored object is read back from its row, in
-- apps/api/src/modules/system/file/.
use Prim.Native.Char.{Char}
use Prim.Native.String.{◌++◌}
use zhuo_stack.Prelude.{
  ◌≡◌, ◌≢◌, refl, sym, ap, subst, ◌∙◌, ◌⊎◌, inl, inr, Bool, true, false, ◌&&◌, none, some, List, [],
  ◌∷◌, map, String, ◌==◌, arith, if◌then◌else◌, Bool-cases, eq_false,
}
use text.Mathlib.TextLemmas.{cons-append, nil-append, cons-ne-nil}
use text.Mathlib.TextEquality.{Char-path}
use zhuo_stack.Files.Keys.{
  UriCodec, is_slash, strip_leading, trim_trailing_slash, trim_one_slash, after_prefix, onto_first,
  split_slash, join_slash, encode_object_key, object_prefix, with_object_prefix,
}

-- A text that does not begin with a slash.
abbrev pub NoSlash : String → Type 0
NoSlash String.[] = Unit
NoSlash (String.◌∷◌ c s) = is_slash c ≡ false

strip_leading-NoSlash : (s : String) → NoSlash (strip_leading s)
unfolding strip_leading
strip_leading-NoSlash String.[] = tt
strip_leading-NoSlash (String.◌∷◌ c s) = elim (Bool-cases (is_slash c)) [
  | inl e ↦ rw e (strip_leading-NoSlash s)
  | inr e ↦ rw e e
]

pub strip_leading_idle : (s : String) → NoSlash s → strip_leading s ≡ s
unfolding strip_leading
strip_leading_idle String.[] h = refl
strip_leading_idle (String.◌∷◌ c s) h = rw h refl

trim-NoSlash : (s : String) → NoSlash s → NoSlash (trim_trailing_slash s)
unfolding trim_trailing_slash
trim-NoSlash String.[] h = tt
trim-NoSlash (String.◌∷◌ c s) h = chosen (trim_trailing_slash s == "")
  where
    chosen :
        (b : Bool) → NoSlash (if b && is_slash c then "" else String.◌∷◌ c (trim_trailing_slash s))
    chosen true = rw h h
    chosen false = h

append-NoSlash : (s t : String) → (s == "") ≡ false → NoSlash s → NoSlash (s ++ t)
append-NoSlash String.[] t n h = absurd (ground (arith, n))
append-NoSlash (String.◌∷◌ c s) t n h = subst NoSlash (sym (cons-append c s t)) h

pub with_object_prefix-NoSlash : (setting key : String) → NoSlash (with_object_prefix setting key)
unfolding with_object_prefix object_prefix
with_object_prefix-NoSlash setting key = elim (Bool-cases (object_prefix setting == "")) [
  | inl e ↦ rw e (strip_leading-NoSlash key)
  | inr e ↦ rw e (
      append-NoSlash (object_prefix setting) _ e
        (trim-NoSlash (strip_leading setting) (strip_leading-NoSlash setting)))
]

is_slash-char : (c : Char) → is_slash c ≡ true → c ≡ "/"
is_slash-char c h = Char-path c "/" (ground (arith, h))

slash_first : (c : Char) (s : String) → is_slash c ≡ true → "/" ++ s ≡ String.◌∷◌ c s
slash_first c s h =
    cons-append "/" "" s ∙ (λ i. String.◌∷◌ (sym (is_slash-char c h) i) (nil-append s i))

-- Parts, one at least, joined.
join-onto_first :
    (c : Char) (xs : List String)
    → xs ≢ []
    → join_slash (onto_first c xs) ≡ String.◌∷◌ c (join_slash xs)
unfolding join_slash
join-onto_first c [] n = absurd (n refl)
join-onto_first c (x ∷ []) n = refl
join-onto_first c (x ∷ y ∷ ys) n = cons-append c x _

join-empty_first : (xs : List String) → xs ≢ [] → join_slash ("" ∷ xs) ≡ "/" ++ join_slash xs
unfolding join_slash
join-empty_first [] n = absurd (n refl)
join-empty_first (x ∷ xs) n = nil-append _

onto_first-ne : (c : Char) (xs : List String) → onto_first c xs ≢ []
onto_first-ne c [] h = absurd (ground arith)
onto_first-ne c (x ∷ xs) h = absurd (ground arith)

split-ne : (s : String) → split_slash s ≢ []
unfolding split_slash
split-ne String.[] = λ h. absurd (ground arith)
split-ne (String.◌∷◌ c s) = chosen (is_slash c)
  where
    chosen : (b : Bool) → (if b then "" ∷ split_slash s else onto_first c (split_slash s)) ≢ []
    chosen true h = absurd (ground arith)
    chosen false h = onto_first-ne c (split_slash s) h

join-split : (s : String) → join_slash (split_slash s) ≡ s
unfolding join_slash split_slash
join-split String.[] = refl
join-split (String.◌∷◌ c s) = elim (Bool-cases (is_slash c)) [
  | inl e ↦ rw e (
      join-empty_first (split_slash s) (split-ne s)
      ∙ ap (λ t. "/" ++ t) (join-split s)
      ∙ slash_first c s e)
  | inr e ↦
      rw e
        (join-onto_first c (split_slash s) (split-ne s) ∙ ap (λ t. String.◌∷◌ c t) (join-split s))
]

decode-join :
    (uri : UriCodec) (xs : List String)
    → xs ≢ []
    → uri.decode (join_slash (map uri.encode xs)) ≡ some (join_slash xs)
unfolding join_slash
decode-join uri [] n = absurd (n refl)
decode-join uri (x ∷ []) n = uri.decode-encode x
decode-join uri (x ∷ y ∷ ys) n =
    uri.decode-slash (uri.encode x) (join_slash (map uri.encode (y ∷ ys))) (uri.decode-encode x)
      (decode-join uri (y ∷ ys) (λ h. absurd (ground arith)))

pub decode-encode_object_key :
    (uri : UriCodec) (key : String) → uri.decode (encode_object_key uri key) ≡ some key
unfolding encode_object_key
decode-encode_object_key uri key =
    decode-join uri (split_slash key) (split-ne key) ∙ ap some (join-split key)

pub encode_object_key-NoSlash :
    (uri : UriCodec) (key : String) → NoSlash key → NoSlash (encode_object_key uri key)
unfolding encode_object_key split_slash join_slash
encode_object_key-NoSlash uri String.[] h = subst NoSlash (sym uri.encode-empty) tt
encode_object_key-NoSlash uri (String.◌∷◌ c s) h = rw h (first (split_slash s))
  where
    coded : (x : String) → NoSlash (uri.encode (String.◌∷◌ c x))
    coded x = let (d, t, e, n) = uri.encode-first c x in subst NoSlash (sym e) n

    first : (xs : List String) → NoSlash (join_slash (map uri.encode (onto_first c xs)))
    first [] = coded ""
    first (x ∷ []) = coded x
    first (x ∷ y ∷ ys) =
        let (d, t, e, n) = uri.encode-first c x in
        subst (λ z. NoSlash (z ++ ("/" ++ join_slash (map uri.encode (y ∷ ys))))) (sym e)
          (subst NoSlash (sym (cons-append d t _)) n)

-- Behind the prefix with one slash less at most stands the rest, or the prefix is not there.
after_prefix-same : (s t : String) → after_prefix s (s ++ t) ≡ some t
unfolding after_prefix
after_prefix-same String.[] t = ap some (nil-append t)
after_prefix-same (String.◌∷◌ c s) t =
    rw (cons-append c s t) (ground (arith, after_prefix-same s t))

cons_full : (c : Char) (s : String) → (String.◌∷◌ c s == "") ≡ false
cons_full c s = eq_false (String.◌∷◌ c s) "" (cons-ne-nil c s)

trimmed_slash :
    (c : Char) (s : String)
    → (trim_trailing_slash (String.◌∷◌ c s) == "") ≡ true
    → is_slash c ≡ true
unfolding trim_trailing_slash
trimmed_slash c s h = chosen (trim_trailing_slash s == "") (is_slash c) refl h
  where
    chosen :
        (b d : Bool)
        → is_slash c ≡ d
        → ((if b && d then "" else String.◌∷◌ c (trim_trailing_slash s)) == "") ≡ true
        → is_slash c ≡ true
    chosen b true e h = e
    chosen true false e h = absurd (ground (arith, cons_full c (trim_trailing_slash s)))
    chosen false false e h = absurd (ground (arith, cons_full c (trim_trailing_slash s)))

after_prefix-blocked :
    (c : Char) (p e : String)
    → is_slash c ≡ true
    → NoSlash e
    → after_prefix (String.◌∷◌ c p) e ≡ none
unfolding after_prefix
after_prefix-blocked c p String.[] h n = refl
after_prefix-blocked c p (String.◌∷◌ d e) h n = ground arith

trim_one_first :
    (c : Char) (s : String)
    → is_slash c ≡ true
    → (t : String) × (trim_one_slash (String.◌∷◌ c s) ++ "/" ≡ String.◌∷◌ "/" t)
unfolding trim_one_slash
trim_one_first c String.[] h = ("", rw h (nil-append "/"))
trim_one_first c (String.◌∷◌ d s) h = (
  trim_one_slash (String.◌∷◌ d s) ++ "/",
  cons-append c (trim_one_slash (String.◌∷◌ d s)) "/"
      ∙ (λ i. String.◌∷◌ (is_slash-char c h i) (trim_one_slash (String.◌∷◌ d s) ++ "/")),
)

after_prefix-cons :
    (c : Char) (p s : String) → after_prefix (String.◌∷◌ c p) (String.◌∷◌ c s) ≡ after_prefix p s
unfolding after_prefix
after_prefix-cons c p s = ground arith

after_prefix-append : (s p t : String) → after_prefix (s ++ p) (s ++ t) ≡ after_prefix p t
after_prefix-append String.[] p t = rw (nil-append p, nil-append t) refl
after_prefix-append (String.◌∷◌ c s) p t =
    rw (cons-append c s p, cons-append c s t)
      (after_prefix-cons c (s ++ p) (s ++ t) ∙ after_prefix-append s p t)

trim-cut :
    (c : Char) (s : String)
    → ((trim_trailing_slash s == "") && is_slash c) ≡ true
    → trim_trailing_slash (String.◌∷◌ c s) ≡ ""
unfolding trim_trailing_slash
trim-cut c s h = rw h refl

trim-kept :
    (c : Char) (s : String)
    → ((trim_trailing_slash s == "") && is_slash c) ≡ false
    → trim_trailing_slash (String.◌∷◌ c s) ≡ String.◌∷◌ c (trim_trailing_slash s)
unfolding trim_trailing_slash
trim-kept c s h = rw h refl

trim_one-single :
    (c : Char) → (trim_one_slash (String.◌∷◌ c "") ≡ trim_trailing_slash (String.◌∷◌ c ""))
unfolding trim_one_slash trim_trailing_slash
trim_one-single c = refl

trim_one-cons :
    (c d : Char) (s : String)
    → trim_one_slash (String.◌∷◌ c (String.◌∷◌ d s))
      ≡ String.◌∷◌ c (trim_one_slash (String.◌∷◌ d s))
unfolding trim_one_slash
trim_one-cons c d s = refl

-- The rest behind the prefix, or no such prefix.
abbrev pub Behind : String → String → String → Type 0
Behind e p s = (after_prefix p s ≡ some e) ⊎ (after_prefix p s ≡ none)

trimmed_more :
    (c d : Char) (s e : String)
    → NoSlash e
    → Behind e
        (trim_one_slash (String.◌∷◌ d s) ++ "/")
        (trim_trailing_slash (String.◌∷◌ d s) ++ ("/" ++ e))
    → Behind e
        (trim_one_slash (String.◌∷◌ c (String.◌∷◌ d s)) ++ "/")
        (trim_trailing_slash (String.◌∷◌ c (String.◌∷◌ d s)) ++ ("/" ++ e))
trimmed_more c d s e n behind =
    let rest = String.◌∷◌ d s in
    let one = trim_one_slash rest ++ "/" in
    let longer : trim_one_slash (String.◌∷◌ c rest) ++ "/" ≡ String.◌∷◌ c one =
      ap (λ z. z ++ "/") (trim_one-cons c d s) ∙ cons-append c (trim_one_slash rest) "/" in
    elim (Bool-cases ((trim_trailing_slash rest == "") && is_slash c)) [
      | inl h ↦
          let slash : is_slash c ≡ true = ground (arith, h) in
          let empty : (trim_trailing_slash rest == "") ≡ true = ground (arith, h) in
          let (t, first) = trim_one_first d s (trimmed_slash d s empty) in
          let url : trim_trailing_slash (String.◌∷◌ c rest) ++ ("/" ++ e) ≡ String.◌∷◌ c e =
            ap (λ z. z ++ ("/" ++ e)) (trim-cut c rest h)
            ∙ nil-append ("/" ++ e)
            ∙ slash_first c e slash in
          inr (
            rw (longer, url)
              (after_prefix-cons c one e ∙ (rw first (after_prefix-blocked "/" t e refl n))))
      | inr h ↦
          let url : trim_trailing_slash (String.◌∷◌ c rest) ++ ("/" ++ e)
              ≡ String.◌∷◌ c (trim_trailing_slash rest ++ ("/" ++ e)) =
            ap (λ z. z ++ ("/" ++ e)) (trim-kept c rest h)
            ∙ cons-append c (trim_trailing_slash rest) ("/" ++ e) in
          rw (longer, url, after_prefix-cons c one (trim_trailing_slash rest ++ ("/" ++ e))) behind
    ]

pub after_prefix-trimmed :
    (u e : String)
    → NoSlash e
    → Behind e (trim_one_slash u ++ "/") (trim_trailing_slash u ++ ("/" ++ e))
unfolding trim_one_slash trim_trailing_slash
after_prefix-trimmed String.[] e n =
    inl (after_prefix-append "" "/" ("/" ++ e) ∙ after_prefix-same "/" e)
after_prefix-trimmed (String.◌∷◌ c String.[]) e n = inl (
    after_prefix-append (trim_one_slash (String.◌∷◌ c "")) "/" ("/" ++ e) ∙ after_prefix-same "/" e)
after_prefix-trimmed (String.◌∷◌ c (String.◌∷◌ d s)) e n =
    trimmed_more c d s e n (after_prefix-trimmed (String.◌∷◌ d s) e n)
