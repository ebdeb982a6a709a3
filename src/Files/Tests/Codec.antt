-- ===== src/Files/Tests/Codec.antt =====
-- An encoding of addresses in which a slash and the sign that escapes it are escaped.
use Prim.Native.Char.{Char, code}
use Prim.Native.String.{◌++◌}
use text.Mathlib.TextLemmas.{cons-append, nil-append}
use text.Mathlib.TextEquality.{Char-path}
use zhuo_stack.Prelude.{
  ◌≡◌, refl, sym, ap, ◌∙◌, inl, inr, Bool, true, false, Option, none, some, String, arith,
  if◌then◌else◌, eqb, Bool-cases,
}
use zhuo_stack.Files.Keys.{UriCodec, is_slash}

abbrev onto : Char → Option String → Option String
onto c none = none
onto c (some s) = some (String.◌∷◌ c s)

abbrev is_sign : Char → Bool
is_sign c = eqb (code c) b'%'

unfoldable pub encode : String → String
encode String.[] = ""
encode (String.◌∷◌ c s) =
    let rest = encode s in
    if is_slash c
    then String.◌∷◌ "%" (String.◌∷◌ "2" rest)
    else if is_sign c
    then String.◌∷◌ "%" (String.◌∷◌ "5" rest)
    else String.◌∷◌ c rest

unfoldable pub decode_from : Bool → String → Option String
decode_from false String.[] = some ""
decode_from true String.[] = none
decode_from false (String.◌∷◌ c s) =
    let escaped = decode_from true s in
    let plain = decode_from false s in if is_sign c then escaped else onto c plain
decode_from true (String.◌∷◌ c s) =
    let rest = decode_from false s in
    if eqb (code c) b'2' then onto "/" rest else if eqb (code c) b'5' then onto "%" rest else none

pub decode-encode : (s : String) → decode_from false (encode s) ≡ some s
unfolding encode decode_from
decode-encode String.[] = refl
decode-encode (String.◌∷◌ c s) = elim (Bool-cases (is_slash c)) [
  | inl e ↦
      rw (e, decode-encode s)
        (ap (λ d. some (String.◌∷◌ d s)) (sym (Char-path c "/" (ground (arith, e)))))
  | inr e ↦ elim (Bool-cases (is_sign c)) [
    | inl f ↦
        rw (e, f, decode-encode s)
          (ap (λ d. some (String.◌∷◌ d s)) (sym (Char-path c "%" (ground (arith, f)))))
    | inr f ↦ rw (e, f, f, decode-encode s) refl
  ]
]

slash_cons : (t : String) → "/" ++ t ≡ String.◌∷◌ "/" t
slash_cons t = cons-append "/" "" t ∙ ap (λ z. String.◌∷◌ "/" z) (nil-append t)

onto-append :
    (c : Char) (o p : Option String) (rest : String) {x : String}
    → onto c o ≡ some x
    → ((z : String) → o ≡ some z → p ≡ some (z ++ rest))
    → onto c p ≡ some (x ++ rest)
onto-append c none p rest h k = absurd (ground arith)
onto-append c (some z) p rest {x} h k =
    let same : String.◌∷◌ c z ≡ x = ground arith in
    rw (k z refl) (ap some (sym (cons-append c z rest) ∙ ap (λ v. v ++ rest) same))

pub decode-slash :
    (b : Bool) (s t : String) {x y : String}
    → decode_from b s ≡ some x
    → decode_from false t ≡ some y
    → decode_from b (s ++ ("/" ++ t)) ≡ some (x ++ ("/" ++ y))
unfolding decode_from
decode-slash true String.[] t h k = absurd (ground arith)
decode-slash false String.[] t {x} {y} h k =
    let empty : "" ≡ x = ground (arith, h) in
    rw (nil-append ("/" ++ t), slash_cons t, k)
      (ap some (sym (slash_cons y) ∙ sym (nil-append ("/" ++ y)) ∙ ap (λ v. v ++ ("/" ++ y)) empty))
decode-slash false (String.◌∷◌ c s) t {x} {y} h k =
    rw (cons-append c s ("/" ++ t)) (chosen (is_sign c) h (λ b z e. decode-slash b s t e k))
  where
    chosen :
        (b : Bool)
        → (if b then decode_from true s else onto c (decode_from false s)) ≡ some x
        → ((d : Bool) (z : String)
            → decode_from d s ≡ some z
            → decode_from d (s ++ ("/" ++ t)) ≡ some (z ++ ("/" ++ y)))
        → (if b
            then decode_from true (s ++ ("/" ++ t))
            else onto c (decode_from false (s ++ ("/" ++ t))))
          ≡ some (x ++ ("/" ++ y))
    chosen true h ih = ih true x h
    chosen false h ih = onto-append c (decode_from false s) _ ("/" ++ y) h (ih false)
decode-slash true (String.◌∷◌ c s) t {x} {y} h k =
    rw (cons-append c s ("/" ++ t))
      (chosen (eqb (code c) b'2') (eqb (code c) b'5') h (λ z e. decode-slash false s t e k))
  where
    chosen :
        (b d : Bool)
        → (if b
            then onto "/" (decode_from false s)
            else if d
            then onto "%" (decode_from false s)
            else none)
          ≡ some x
        → ((z : String)
            → decode_from false s ≡ some z
            → decode_from false (s ++ ("/" ++ t)) ≡ some (z ++ ("/" ++ y)))
        → (if b
            then onto "/" (decode_from false (s ++ ("/" ++ t)))
            else if d
            then onto "%" (decode_from false (s ++ ("/" ++ t)))
            else none)
          ≡ some (x ++ ("/" ++ y))
    chosen true d h ih = onto-append "/" (decode_from false s) _ ("/" ++ y) h ih
    chosen false true h ih = onto-append "%" (decode_from false s) _ ("/" ++ y) h ih
    chosen false false h ih = absurd (ground arith)

pub encode-empty : encode "" ≡ ""
unfolding encode
encode-empty = refl

pub encode-first :
    (c : Char) (s : String)
    → (d : Char) × (t : String) × (encode (String.◌∷◌ c s) ≡ String.◌∷◌ d t)
      × (eqb (code d) b'/' ≡ false)
unfolding encode
encode-first c s = elim (Bool-cases (is_slash c)) [
  | inl e ↦ ("%", String.◌∷◌ "2" (encode s), rw e refl, refl)
  | inr e ↦ elim (Bool-cases (is_sign c)) [
    | inl f ↦ ("%", String.◌∷◌ "5" (encode s), rw (e, f) refl, refl)
    | inr f ↦ (c, encode s, rw (e, f) refl, e)
  ]
]

abbrev pub percent_codec : UriCodec
percent_codec = record {
  encode = encode;
  decode = decode_from false;
  decode-encode = decode-encode;
  decode-slash = λ s t. decode-slash false s t;
  encode-first = encode-first;
  encode-empty = encode-empty;
}
