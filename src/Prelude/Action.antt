-- ===== src/Prelude/Action.antt =====
-- A request handler: a state and exceptions. What was written before a throw stays written. An
-- exception is its class and its message.
use zhuo_stack.Prelude.{Bool, true, false, ◌≡◌, refl, Option, none, some, String, arith}

pub data Error : Type 0 where
  bad_request unauthorized forbidden not_found conflict service_unavailable internal :
      String → Error

pub data Result {ℓ} (A : Type ℓ) : Type ℓ where
  ok : A → Result A
  err : Error → Result A

abbrev pub Action {ℓ κ} : Type ℓ → Type κ → Type (ℓ ⊔ κ)
Action W A = W → Result A × W

module _ {ℓ κ} {W : Type ℓ} {A : Type κ} where
  abbrev pub pure : A → Action W A
  pure a w = (ok a, w)

  abbrev pub throw : Error → Action W A
  throw e w = (err e, w)

  abbrev pub gets : (W → A) → Action W A
  gets f w = (ok (f w), w)

  -- `x ?? throw`: the value of an option, or an exception.
  abbrev pub or_throw : Option A → Error → Action W A
  or_throw none e = throw e
  or_throw (some a) _ = pure a

module _ {ℓ} {W : Type ℓ} where
  abbrev pub throw_if : Bool → Error → Action W (Unit {0})
  throw_if true e w = (err e, w)
  throw_if false e w = (ok tt, w)

  abbrev pub modify_state : (W → W) → Action W (Unit {0})
  modify_state f w = (ok tt, f w)

infixl 5 ◌>>=◌ ◌>>◌
-- Shut, so that a proof can take a block apart by `>>=-ok`.
unfoldable pub ◌>>=◌ {ℓ κ μ} :
    {W : Type ℓ} {A : Type κ} {B : Type μ} → Action W A → (A → Action W B) → Action W B
◌>>=◌ m f w = let (r, w') = m w in elim r [ ok a ↦ f a w' | err e ↦ throw e w' ]

abbrev pub ◌>>◌ {ℓ κ μ} :
    {W : Type ℓ} {A : Type κ} {B : Type μ} → Action W A → Action W B → Action W B
m >> k = m >>= λ _. k

-- `Promise.all([m, n])`: both are started, and the first exception is thrown.
abbrev pub both {ℓ κ μ} :
    {W : Type ℓ} {A : Type κ} {B : Type μ} → Action W A → Action W B → Action W (A × B)
both m n w =
    let (r, w') = m w in
    let (q, w'') = n w' in
    elim r [ err e ↦ throw e w'' | ok a ↦ elim q [ err e ↦ throw e w'' | ok b ↦ (ok (a, b), w'') ] ]

-- Inversion of a sequence that ended well.
pub >>=-ok {ℓ κ μ} :
    {W : Type ℓ} {A : Type κ} {B : Type μ} (m : Action W A) (f : A → Action W B) (w : W) {b : B}
    {w' : W}
    → (m >>= f) w ≡ (ok b, w')
    → (a : A) × (u : W) × (m w ≡ (ok a, u)) × (f a u ≡ (ok b, w'))
unfolding ◌>>=◌
>>=-ok {W} {A} {B} m f w {b} {w'} h = split (m w).0 (m w).1 refl h
  where
    split :
        (r : Result A) (u : W)
        → m w ≡ (r, u)
        → (elim r [ ok a ↦ f a u | err e ↦ throw e u ]) ≡ (ok b, w')
        → (a : A) × (u : W) × (m w ≡ (ok a, u)) × (f a u ≡ (ok b, w'))
    split (ok a) u e h = (a, u, e, h)
    split (err x) u e h = absurd (ground arith)

-- The same with the parts as variables of the rest of a proof.
pub >>=-ok_elim :
    {W A B P : Type 0} (m : Action W A) (f : A → Action W B) (w : W) {b : B} {w' : W}
    → (m >>= f) w ≡ (ok b, w')
    → ((a : A) (u : W) → m w ≡ (ok a, u) → f a u ≡ (ok b, w') → P)
    → P
>>=-ok_elim m f w h k = let (a, u, p, q) = >>=-ok m f w h in k a u p q

-- Inversion of two actions started together.
pub both-ok {ℓ κ μ} :
    {W : Type ℓ} {A : Type κ} {B : Type μ} (m : Action W A) (n : Action W B) (w : W) {a : A} {b : B}
    {w' : W}
    → both m n w ≡ (ok (a, b), w')
    → (u : W) × (m w ≡ (ok a, u)) × (n u ≡ (ok b, w'))
both-ok {W} {A} {B} m n w {a} {b} {w'} h = split (m w).0 (m w).1 refl h
  where
    second :
        (x : A) (u : W) (q : Result B) (v : W)
        → m w ≡ (ok x, u)
        → n u ≡ (q, v)
        → ◌≡◌ {A = Result (A × B) × W}
            (elim q [ err e ↦ (err e, v) | ok b ↦ (ok (x, b), v) ])
            (ok (a, b), w')
        → (u : W) × (m w ≡ (ok a, u)) × (n u ≡ (ok b, w'))
    second x u (ok y) v e f h = (u, ground arith, ground arith)
    second x u (err y) v e f h = absurd (ground arith)

    split :
        (r : Result A) (u : W)
        → m w ≡ (r, u)
        → ◌≡◌ {A = Result (A × B) × W}
            (elim r [
              | err e ↦ (err e, (n u).1)
              | ok x ↦ elim (n u).0 [ err e ↦ (err e, (n u).1) | ok b ↦ (ok (x, b), (n u).1) ]
            ])
            (ok (a, b), w')
        → (u : W) × (m w ≡ (ok a, u)) × (n u ≡ (ok b, w'))
    split (ok x) u e h = second x u (n u).0 (n u).1 e refl h
    split (err x) u e h = absurd (ground arith)

pub throw_if-ok {ℓ} :
    {W : Type ℓ} (b : Bool) (e : Error) (w : W) {x : Unit {0}} {w' : W}
    → throw_if b e w ≡ (ok x, w')
    → (b ≡ false) × (w' ≡ w)
throw_if-ok true e w h = absurd (ground arith)
throw_if-ok false e w h = (refl, ground arith)

pub or_throw-ok {ℓ κ} :
    {W : Type ℓ} {A : Type κ} (o : Option A) (e : Error) (w : W) {a : A} {w' : W}
    → or_throw o e w ≡ (ok a, w')
    → (o ≡ some a) × (w' ≡ w)
or_throw-ok none e w h = absurd (ground arith)
or_throw-ok (some a) e w h = (ground arith, ground arith)

-- A guard that let the rest of a block run.
pub throw_if-ok_elim :
    {W B P : Type 0} (b : Bool) (e : Error) (f : Unit {0} → Action W B) (w : W) {x : B} {w' : W}
    → (throw_if b e >>= f) w ≡ (ok x, w')
    → (b ≡ false → f tt w ≡ (ok x, w') → P)
    → P
throw_if-ok_elim b e f w h k =
    >>=-ok_elim (throw_if b e) f w h
      (λ t u p q. let (c, d) = throw_if-ok b e w p in k c (ground arith))

-- A predicate of the state that holds after an action, however it ends, where it held before.
abbrev pub Keeps {ℓ κ μ} :
    {W : Type ℓ} {A : Type κ} (P : W → Type μ) (m : Action W A) → Type (ℓ ⊔ μ)
Keeps {W} P m = (w : W) → P w → P (m w).1

pub >>=-Keeps {ℓ κ μ ν} :
    {W : Type ℓ} {A : Type κ} {B : Type μ} (P : W → Type ν) (m : Action W A) (f : A → Action W B)
    → Keeps P m
    → ((a : A) → Keeps P (f a))
    → Keeps P (m >>= f)
unfolding ◌>>=◌
>>=-Keeps {W} {A} {B} P m f h k w p = after (m w).0 (m w).1 (h w p)
  where
    after :
        (r : Result A) (u : W)
        → P u
        → P (let next : Result B × W = elim r [ ok a ↦ f a u | err e ↦ throw e u ] in next).1
    after (ok a) u q = k a u q
    after (err e) u q = q

-- An action that leaves the state alone.
pub or_throw-Keeps {ℓ κ μ} :
    {W : Type ℓ} {A : Type κ} (P : W → Type μ) (o : Option A) (e : Error) → Keeps P (or_throw o e)
or_throw-Keeps P none e w p = p
or_throw-Keeps P (some a) e w p = p

pub throw_if-Keeps {ℓ μ} :
    {W : Type ℓ} (P : W → Type μ) (b : Bool) (e : Error) → Keeps P (throw_if b e)
throw_if-Keeps P true e w p = p
throw_if-Keeps P false e w p = p

-- The same for a first action that is known to keep the predicate from the state at hand.
pub >>=-Keeps_from {ℓ κ μ ν} :
    {W : Type ℓ} {A : Type κ} {B : Type μ} (P : W → Type ν) (m : Action W A) (f : A → Action W B)
    (w : W)
    → P (m w).1
    → ((a : A) → Keeps P (f a))
    → P ((m >>= f) w).1
unfolding ◌>>=◌
>>=-Keeps_from {W} {A} {B} P m f w h k = after (m w).0 (m w).1 h
  where
    after :
        (r : Result A) (u : W)
        → P u
        → P (let next : Result B × W = elim r [ ok a ↦ f a u | err e ↦ throw e u ] in next).1
    after (ok a) u q = k a u q
    after (err e) u q = q

-- A guard that throws, and one that lets the rest run.
pub throw_if-stop :
    {W A : Type 0} (b : Bool) (e : Error) (m : Action W A) (w : W)
    → b ≡ true
    → (throw_if b e >> m) w ≡ (err e, w)
unfolding ◌>>=◌
throw_if-stop true e m w h = refl
throw_if-stop false e m w h = absurd (ground arith)

pub throw_if-pass :
    {W A : Type 0} (b : Bool) (e : Error) (m : Action W A) (w : W)
    → b ≡ false
    → (throw_if b e >> m) w ≡ m w
unfolding ◌>>=◌
throw_if-pass true e m w h = absurd (ground arith)
throw_if-pass false e m w h = refl

pub >>=-cong :
    {W A B : Type 0} (m n : Action W A) (f : A → Action W B) (w : W)
    → m w ≡ n w
    → (m >>= f) w ≡ (n >>= f) w
unfolding ◌>>=◌
>>=-cong m n f w h = ground arith

-- What a block ends in, given what its first action ends in.
pub >>=-run :
    {W A B : Type 0} (m : Action W A) (f : A → Action W B) (w : W) {a : A} {u : W}
    → m w ≡ (ok a, u)
    → (m >>= f) w ≡ f a u
unfolding ◌>>=◌
>>=-run m f w h = ground arith

pub >>=-stop :
    {W A B : Type 0} (m : Action W A) (f : A → Action W B) (w : W) {e : Error} {u : W}
    → m w ≡ (err e, u)
    → (m >>= f) w ≡ (err e, u)
unfolding ◌>>=◌
>>=-stop m f w h = ground arith
