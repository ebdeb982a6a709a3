-- ===== src/Auth/Duration.antt =====
-- `durationToSeconds` of apps/api/src/modules/auth/auth-security.ts: `30m`, `8h` or `7d` as
-- seconds. A text is the list of its code points. The amount is a natural number here: the code
-- reads the digits as a double and refuses all but the safe integers, which doubles hold exactly.
use Prim.Native.Char.{code}
use native.Mathlib.Nat.{mul-pos}
use zhuo_stack.Prelude.{
  ℕ, ◌+◌, ◌-◌, ◌*◌, ◌≤◌, ◌<◌, ◌≡◌, refl, Bool, true, false, ◌&&◌, ◌||◌, Option, none, some, List,
  [], ◌∷◌, ◌++◌, String, arith, leb, ltb, eqb, if◌then◌else◌, reverse, All, ap, ◌≢◌, ◌⊎◌, inl, inr,
  ◌↔◌, Bool-cases, Option-cases,
}
use zhuo_stack.Auth.Double.{to_double, to_double-pos, to_double-exact, two_53}

abbrev pub codes : String → List ℕ
codes String.[] = []
codes (String.◌∷◌ c s) = code c ∷ codes s

-- The white space and line ends that `trim` removes.
is_space : ℕ → Bool
is_space c =
    (leb 9 c && leb c 13)
    || eqb c 32
    || eqb c 0xa0
    || eqb c 0x1680
    || (leb 0x2000 c && leb c 0x200a)
    || eqb c 0x2028
    || eqb c 0x2029
    || eqb c 0x202f
    || eqb c 0x205f
    || eqb c 0x3000
    || eqb c 0xfeff

trim_left : List ℕ → List ℕ
trim_left [] = []
trim_left (c ∷ cs) = if is_space c then trim_left cs else c ∷ cs

pub trim : List ℕ → List ℕ
unfolding trim_left is_space
trim cs = reverse (trim_left (reverse (trim_left cs)))

pub is_digit : ℕ → Bool
is_digit c = leb b'0' c && leb c b'9'

-- `unitSeconds[match[2].toLowerCase()]`
pub unit_seconds : ℕ → Option ℕ
unit_seconds c =
    if eqb c b's' || eqb c b'S'
    then some 1
    else if eqb c b'm' || eqb c b'M'
    then some 60
    else if eqb c b'h' || eqb c b'H'
    then some (60 * 60)
    else if eqb c b'd' || eqb c b'D'
    then some (24 * 60 * 60)
    else none

-- The digits and the unit of `/^(\d+)(s|m|h|d)$/i`, from the value of the digits read so far.
-- The last argument says whether there was a digit.
amount_unit : List ℕ → ℕ → Bool → Option (ℕ × ℕ)
amount_unit [] n seen = none
amount_unit (c ∷ cs) n seen =
    if is_digit c
    then amount_unit cs (n * 10 + (c - b'0')) true
    else if seen
    then elim cs [
      | [] ↦ elim (unit_seconds c) [ none ↦ none | some u ↦ some (n, u) ]
      | _ ∷ _ ↦ none
    ]
    else none

abbrev pub max_safe_integer : ℕ
max_safe_integer = 9007199254740991

-- `none` is the exception.
unfoldable pub duration_to_seconds : String → Option ℕ
unfolding trim amount_unit is_digit unit_seconds
duration_to_seconds value = elim (amount_unit (trim (codes value)) 0 false) [
  | none ↦ none
  | some (amount, unit) ↦
      if leb amount max_safe_integer && ltb 0 amount then some (to_double (amount * unit)) else none
]

unit_seconds-pos : (c : ℕ) (u : ℕ) → unit_seconds c ≡ some u → 0 < u
unfolding unit_seconds
unit_seconds-pos c u h = ground arith

amount_unit-pos :
    (cs : List ℕ) (n : ℕ) (seen : Bool) (m u : ℕ) → amount_unit cs n seen ≡ some (m, u) → 0 < u
unfolding amount_unit
amount_unit-pos [] n seen m u h = ground arith
amount_unit-pos (c ∷ []) n seen m u h = ground (arith, unit_seconds-pos c u)
amount_unit-pos (c ∷ d ∷ cs) n seen m u h =
    ground (arith, amount_unit-pos (d ∷ cs) (n * 10 + (c - b'0')) true m u)

-- A duration that is accepted is positive, so it can be a time to live.
pub duration_to_seconds-pos : (value : String) (t : ℕ) → duration_to_seconds value ≡ some t → 0 < t
unfolding duration_to_seconds
duration_to_seconds-pos value t h = elim (Option-cases (amount_unit (trim (codes value)) 0 false)) [
  | inl e ↦ ground arith
  | inr (p, e) ↦
      let u = amount_unit-pos (trim (codes value)) 0 false p.0 p.1 (ground arith) in
      let n : 0 < p.0 = ground arith in ground (arith, to_double-pos (p.0 * p.1) (mul-pos n u))
]

-- The number that digits write, after the value `n` of those before.
abbrev pub decimal : ℕ → List ℕ → ℕ
decimal n [] = n
decimal n (d ∷ ds) = decimal (n * 10 + (d - b'0')) ds

abbrev pub IsDuration : ℕ → List ℕ → Bool → ℕ → ℕ → Type 0
IsDuration n cs seen m u =
    (ds : List ℕ) × (c : ℕ) × (cs ≡ ds ++ c ∷ [])
    × All (λ d. is_digit d ≡ true) ds
    × ((seen ≡ true) ⊎ (ds ≢ []))
    × (unit_seconds c ≡ some u)
    × (m ≡ decimal n ds)

amount_unit_sound :
    (cs : List ℕ) (n : ℕ) (seen : Bool) (m u : ℕ)
    → amount_unit cs n seen ≡ some (m, u)
    → IsDuration n cs seen m u
unfolding amount_unit
amount_unit_sound [] n seen m u h = absurd (ground arith)
amount_unit_sound (c ∷ cs) n seen m u h = elim (Bool-cases (is_digit c)) [
  | inl e ↦
      let (ds, d, p, a, s, k, v) =
        amount_unit_sound cs (n * 10 + (c - b'0')) true m u (rw (e, amount_unit) at h) in
      (c ∷ ds, d, ap (◌∷◌ c) p, (e, a), inr (λ q. ground arith), k, v)
  | inr e ↦ last_one cs (rw (e, amount_unit) at h)
]
  where
    last_one :
        (rest : List ℕ)
        → ◌≡◌ {A = Option (ℕ × ℕ)}
            (if seen
              then elim rest [
                | [] ↦ elim (unit_seconds c) [ none ↦ none | some w ↦ some (n, w) ]
                | _ ∷ _ ↦ none
              ]
              else none)
            (some (m, u))
        → IsDuration n (c ∷ rest) seen m u
    last_one [] k = ([], c, refl, tt, inl (ground arith), ground arith, ground arith)
    last_one (d ∷ rest) k = absurd (ground arith)

unit_no_digit : (c u : ℕ) → unit_seconds c ≡ some u → is_digit c ≡ false
unfolding unit_seconds is_digit
unit_no_digit c u h = ground arith

amount_unit_complete :
    (ds : List ℕ) (c n : ℕ) (seen : Bool) (u : ℕ)
    → All (λ d. is_digit d ≡ true) ds
    → (seen ≡ true) ⊎ (ds ≢ [])
    → unit_seconds c ≡ some u
    → amount_unit (ds ++ c ∷ []) n seen ≡ some (decimal n ds, u)
unfolding amount_unit
amount_unit_complete [] c n seen u a s k = ground (arith, unit_no_digit c u k)
amount_unit_complete (d ∷ ds) c n seen u a s k =
    ground (arith, amount_unit_complete ds c (n * 10 + (d - b'0')) true u a.1 (inl refl) k)

-- `durationToSeconds` answers `t` exactly for the texts that are, but for white space around them,
-- some decimal digits and one of the letters s, m, h, d of either case, whose number is positive
-- and a safe integer; `t` is then the double nearest to the number times the seconds of the unit,
-- which up to 2^53 is that product itself.
pub duration_to_seconds_iff :
    (value : String) (t : ℕ)
    → (duration_to_seconds value ≡ some t) ↔ (
        (m : ℕ) × (u : ℕ) × IsDuration 0 (trim (codes value)) false m u
        × (0 < m)
        × (m ≤ max_safe_integer)
        × (t ≡ to_double (m * u))
        × (m * u ≤ two_53 → t ≡ m * u))
unfolding duration_to_seconds
duration_to_seconds_iff value t = (to, from)
  where
    to :
        duration_to_seconds value ≡ some t
        → (m : ℕ) × (u : ℕ) × IsDuration 0 (trim (codes value)) false m u
          × (0 < m)
          × (m ≤ max_safe_integer)
          × (t ≡ to_double (m * u))
          × (m * u ≤ two_53 → t ≡ m * u)
    to h = elim (Option-cases (amount_unit (trim (codes value)) 0 false)) [
      | inl e ↦ absurd (ground arith)
      | inr (p, e) ↦ (
        p.0,
        p.1,
        amount_unit_sound (trim (codes value)) 0 false p.0 p.1 (ground arith),
        ground arith,
        ground arith,
        ground arith,
        λ few. ground (arith, to_double-exact (p.0 * p.1) few),
      )
    ]

    from :
        (m : ℕ) × (u : ℕ) × IsDuration 0 (trim (codes value)) false m u
          × (0 < m)
          × (m ≤ max_safe_integer)
          × (t ≡ to_double (m * u))
          × (m * u ≤ two_53 → t ≡ m * u)
        → duration_to_seconds value ≡ some t
    from (m, u, (ds, c, p, a, s, k, v), pos, safe, q, _) =
        let e = amount_unit_complete ds c 0 false u a s k in ground arith
