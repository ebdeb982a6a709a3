-- ===== src/Auth/Double.antt =====
-- The numbers of JavaScript, for the product in `durationToSeconds` of
-- apps/api/src/modules/auth/auth-security.ts: a natural number as the nearest IEEE 754 double. The
-- doubles up to 2^53 are all the natural numbers; from there on they stand 2, 4, 8, ... apart.
use native.Mathlib.Nat.{div-add-mod, mod-lt, mul-pos}
use zhuo_stack.Prelude.{
  ℕ, zero, suc, ◌+◌, ◌*◌, ◌/◌, ◌%◌, ◌≤◌, ◌<◌, ◌≡◌, refl, false, ◌&&◌, ◌||◌, inl, inr, arith, ltb,
  eqb, if◌then◌else◌, Bool-cases,
}

abbrev pub two_53 : ℕ
two_53 = 9007199254740992

-- How far apart the doubles stand at `n`, if `n` is less than 2^53 * 2^fuel.
unfoldable pub spacing : ℕ → ℕ → ℕ
spacing zero n = 1
spacing (suc fuel) n = let half = spacing fuel (n / 2) in if ltb n two_53 then 1 else 2 * half

-- `n` as a multiple of `gap`: the nearest one, and the even one of two that are as near.
unfoldable pub round_to : ℕ → ℕ → ℕ
round_to gap n =
    let q = n / gap in
    let r = n % gap in
    if ltb (2 * r) gap || (eqb (2 * r) gap && eqb (q % 2) 0) then q * gap else suc q * gap

-- The double nearest to `n`. The products of `durationToSeconds` are less than 2^53 * 2^17, since
-- the amount is less than 2^53 and a day has less than 2^17 seconds.
unfoldable pub to_double : ℕ → ℕ
unfolding spacing round_to
to_double n = round_to (spacing 17 n) n

spacing-bounds : (fuel n : ℕ) → 0 < n → (0 < spacing fuel n) × (spacing fuel n ≤ n)
unfolding spacing
spacing-bounds zero n pos = (omega arith, omega (arith, pos))
spacing-bounds (suc fuel) n pos = elim (Bool-cases (ltb n two_53)) [
  | inl small ↦ rw small (omega arith, omega (arith, pos))
  | inr large ↦ rw large (doubled (spacing-bounds fuel (n / 2) (half_pos large)))
]
  where
    half_pos : ltb n two_53 ≡ false → 0 < n / 2
    half_pos large = let big : 2 ≤ n = ground arith in omega (arith, big)

    doubled :
        (0 < spacing fuel (n / 2)) × (spacing fuel (n / 2) ≤ n / 2)
        → (0 < 2 * spacing fuel (n / 2)) × (2 * spacing fuel (n / 2) ≤ n)
    doubled (some_gap, at_most) = (omega (arith, some_gap), omega (arith, at_most))

quotient_pos : (gap q r n : ℕ) → gap * q + r ≡ n → r < gap → gap ≤ n → 0 < q
quotient_pos gap zero r n e less at_most = absurd (omega (arith, e, less, at_most))
quotient_pos gap (suc q) r n e less at_most = omega arith

-- A number that is at least the gap is not rounded to zero.
round_to-pos : (gap n : ℕ) → 0 < gap → gap ≤ n → 0 < round_to gap n
unfolding round_to
round_to-pos gap n pos at_least =
    let filled =
      quotient_pos gap (n / gap) (n % gap) n (div-add-mod n gap) (mod-lt n pos) at_least in
    elim (Bool-cases
      (ltb (2 * (n % gap)) gap || (eqb (2 * (n % gap)) gap && eqb (n / gap % 2) 0))) [
        | inl down ↦ rw down (mul-pos filled pos)
        | inr up ↦ rw up (mul-pos (omega arith) pos)
      ]

pub to_double-pos : (n : ℕ) → 0 < n → 0 < to_double n
unfolding to_double
to_double-pos n pos =
    let (some_gap, at_most) = spacing-bounds 17 n pos in
    round_to-pos (spacing 17 n) n some_gap at_most

round_to-one : (n : ℕ) → round_to 1 n ≡ n
unfolding round_to
round_to-one n = ground arith

two_53-exact : to_double two_53 ≡ two_53
unfolding to_double spacing round_to
two_53-exact = refl

-- Up to 2^53 every natural number is a double.
pub to_double-exact : (n : ℕ) → n ≤ two_53 → to_double n ≡ n
unfolding to_double spacing
to_double-exact n h = elim (Bool-cases (ltb n two_53)) [
  | inl small ↦ rw small (round_to-one n)
  | inr large ↦ let e : n ≡ two_53 = ground arith in rw e two_53-exact
]
