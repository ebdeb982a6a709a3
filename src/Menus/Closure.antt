-- ===== src/Menus/Closure.antt =====
-- The ids that `getUserMenus` of apps/api/src/modules/auth/auth.service.ts completes by the menus above
-- them.
use zhuo_stack.Prelude.{
  subst, ℕ, zero, suc, ◌≤◌, ◌<◌, ◌≡◌, refl, sym, ap, ◌∙◌, ◌⊎◌, inl, inr, ◌↔◌, not, ◌||◌, true,
  false, Option, none, some, List, [], ◌∷◌, String, arith, ◌==◌, eq_iff, eq_refl, filter, length,
  length-filter-le, Bool-cases, text_cases, eq_false,
}
use zhuo_stack.Prelude.Keyed.{has, has-append, find-has}
use zhuo_stack.Trees.Chains.{same}
use zhuo_stack.Menus.{SysMenu, menu_id}
use zhuo_stack.Menus.Visible.{add, add_all, parent_of, climb, complete}

pub has-add :
    (x y : String) (set : List String) → has same y (add x set) ≡ (has same y set || x == y)
has-add x y set = elim (Bool-cases (has same x set)) [
  | inl on ↦ rw on (there (Bool-cases (x == y)) on)
  | inr off ↦ rw off (has-append same y set (x ∷ []) ∙ ground arith)
]
  where
    there :
        (((x == y) ≡ true) ⊎ ((x == y) ≡ false))
        → has same x set ≡ true
        → has same y set ≡ (has same y set || x == y)
    there (inl e) on =
        let here : has same y set ≡ true =
          subst (λ z. has same z set ≡ true) ((eq_iff x y).0 e) on in
        ground arith
    there (inr e) on = ground arith

pub has-add_all :
    (xs : List String) (y : String) (set : List String)
    → has same y (add_all xs set) ≡ (has same y set || has same y xs)
has-add_all [] y set = ground arith
has-add_all (x ∷ xs) y set = ground (arith, has-add_all xs y (add x set), has-add x y set)

module _ (active : List SysMenu) where
  -- One step up from a menu, and any number of them.
  abbrev pub Next : String → String → Type 0
  Next x y = (parent_of active x ≡ some y) × ((y == "") ≡ false)

  pub data Up (x : String) : String → Type 0 where
    here : Up x x
    above : {y z : String} → Up x y → Next y z → Up x z

  -- Every step up from a member ends in a member, but for members that are excused.
  abbrev pub ClosedBut : (String → Type 0) → List String → Type 0
  ClosedBut E set =
      (x y : String) → has same x set ≡ true → Next x y → (has same y set ≡ true) ⊎ E x

  abbrev pub missing : List String → ℕ
  missing set = length (filter (λ m. not (has same m.id set)) active)

  climb_idle : (n : ℕ) (set : List String) → climb n active none set ≡ set
  unfolding climb
  climb_idle zero set = refl
  climb_idle (suc n) set = refl

  climb_more :
      (n : ℕ) (p : String) (set : List String)
      → (p == "") ≡ false
      → has same p set ≡ false
      → climb (suc n) active (some p) set ≡ climb n active (parent_of active p) (add p set)
  unfolding climb
  climb_more n p set e h = rw (e, h) refl

  climb_done :
      (n : ℕ) (p : String) (set : List String)
      → ((p == "") || has same p set) ≡ true
      → climb (suc n) active (some p) set ≡ set
  unfolding climb
  climb_done n p set e = rw e refl

-- An active menu that is added is missing no longer.
fewer :
    (p : String) (set : List String) (ms : List SysMenu)
    → has same p set ≡ false
    → (missing ms (add p set) ≤ missing ms set)
      × (has menu_id p ms ≡ true → missing ms (add p set) < missing ms set)
fewer p set [] h = (omega arith, λ e. absurd (ground arith))
fewer p set (m ∷ ms) h =
    let (le, lt) = fewer p set ms h in
    elim (text_cases p m.id) [
      | inl (b, q) ↦
          let out : has same m.id set ≡ false = subst (λ z. has same z set ≡ false) q h in
          let in_now : has same m.id (add p set) ≡ true = ground (arith, has-add p m.id set) in
          (rw (out, in_now) (omega (arith, le)), λ _. rw (out, in_now) (omega (arith, le)))
      | inr (b, n) ↦
          let other : (m.id == p) ≡ false = eq_false m.id p (λ q. n (sym q)) in
          elim (Bool-cases (has same m.id set)) [
            | inl out ↦
                let now : has same m.id (add p set) ≡ true = ground (arith, has-add p m.id set) in
                (ground arith, λ e. ground (arith, lt))
            | inr out ↦
                let now : has same m.id (add p set) ≡ false = ground (arith, has-add p m.id set) in
                (ground arith, λ e. ground (arith, lt))
          ]
    ]

parent_of-absent :
    (active : List SysMenu) (p : String) → has menu_id p active ≡ false → parent_of active p ≡ none
parent_of-absent active p h = rw (find-has menu_id p active h, parent_of) refl

module _ (active : List SysMenu) where
  -- After a climb from a parent, what was excused for that parent is not any more.
  climb-ClosedBut :
      (n : ℕ) (pid : Option String) (set : List String) (E : String → Type 0)
      → (missing active set < n) ⊎ (pid ≡ none)
      → ClosedBut active (λ x. E x ⊎ (parent_of active x ≡ pid)) set
      → ClosedBut active E (climb n active pid set)
  climb-ClosedBut n none set E few c = rw (climb_idle active n set) (λ x y h (p, e).
      elim (c x y h (p, e)) [
        | inl in_set ↦ inl in_set
        | inr (inl excused) ↦ inr excused
        | inr (inr q) ↦ absurd (ground arith)
      ])
  climb-ClosedBut zero (some p) set E few c =
      absurd (elim few [ inl l ↦ omega (arith, l) | inr q ↦ ground arith ])
  climb-ClosedBut (suc n) (some p) set E few c = elim (Bool-cases (p == "")) [
    | inl empty ↦ rw (climb_done active n p set (rw empty refl)) (λ x y h (q, e).
        elim (c x y h (q, e)) [
          | inl in_set ↦ inl in_set
          | inr (inl excused) ↦ inr excused
          | inr (inr r) ↦ absurd (
              let s : p ≡ y = ground arith in
              let t = subst (λ z. (z == "") ≡ true) s empty in ground arith)
        ])
    | inr filled ↦ elim (Bool-cases (has same p set)) [
      | inl on ↦ rw (climb_done active n p set (rw (filled, on) refl)) (λ x y h (q, e).
          elim (c x y h (q, e)) [
            | inl in_set ↦ inl in_set
            | inr (inl excused) ↦ inr excused
            | inr (inr r) ↦
                inl (let s : p ≡ y = ground arith in subst (λ z. has same z set ≡ true) s on)
          ])
      | inr off ↦
          rw (climb_more active n p set filled off)
            (climb-ClosedBut n (parent_of active p) (add p set) E (enough off) (wider off))
    ]
  ]
    where
      enough :
          has same p set ≡ false → (missing active (add p set) < n) ⊎ (parent_of active p ≡ none)
      enough off = elim (Bool-cases (has menu_id p active)) [
        | inl there ↦ inl (elim few [
          | inl l ↦ let m = (fewer p set active off).1 there in omega (arith, l, m)
          | inr q ↦ absurd (ground arith)
        ])
        | inr gone ↦ inr (parent_of-absent active p gone)
      ]

      wider :
          has same p set ≡ false
          → ClosedBut active (λ x. E x ⊎ (parent_of active x ≡ parent_of active p)) (add p set)
      wider off x y h (q, e) = elim (text_cases p x) [
        | inl (b, s) ↦ inr (inr (ap (parent_of active) (sym s)))
        | inr (b, d) ↦
            let old : has same x set ≡ true = ground (arith, has-add p x set) in
            elim (c x y old (q, e)) [
              | inl in_set ↦ inl (has-add p y set ∙ rw in_set refl)
              | inr (inl excused) ↦ inr (inl excused)
              | inr (inr r) ↦ inl (
                  let t : p ≡ y = ground arith in
                  has-add p y set ∙ ground (arith, (eq_iff p y).1 t))
            ]
      ]

  complete-ClosedBut :
      (xs set : List String)
      → ClosedBut active (λ x. has same x xs ≡ true) set
      → ClosedBut active (λ _. ⊥) (complete active xs set)
  unfolding complete
  complete-ClosedBut [] set c =
      λ x y h n. elim (c x y h n) [ inl in_set ↦ inl in_set | inr e ↦ absurd (ground arith) ]
  complete-ClosedBut (x ∷ xs) set c =
      complete-ClosedBut xs (climb (suc (length active)) active (parent_of active x) set) (
        climb-ClosedBut (suc (length active)) (parent_of active x) set (λ z. has same z xs ≡ true)
          (inl (
            let few = length-filter-le (λ m. not (has same m.id set)) active in omega (arith, few)))
          (λ z y h n. elim (c z y h n) [
            | inl in_set ↦ inl in_set
            | inr e ↦ inr (elim (text_cases x z) [
              | inl (b, q) ↦ inr (ap (parent_of active) (sym q))
              | inr (b, d) ↦ inl (ground arith)
            ])
          ]))

  -- A property of texts that steps up keep holds of whatever is added.
  module _ (P : String → Type 0) (up : (x y : String) → P x → Next active x y → P y) where
    climb-All :
        (n : ℕ) (pid : Option String) (set : List String)
        → ((p : String) → pid ≡ some p → (p == "") ≡ false → P p)
        → ((y : String) → has same y set ≡ true → P y)
        → (y : String) → has same y (climb n active pid set) ≡ true
        → P y
    unfolding climb
    climb-All zero pid set start all = all
    climb-All (suc n) none set start all = all
    climb-All (suc n) (some p) set start all = elim (Bool-cases (p == "" || has same p set)) [
      | inl done ↦ rw done all
      | inr more ↦ rw more (
          let filled : (p == "") ≡ false = ground arith in
          let here = start p refl filled in
          climb-All n (parent_of active p) (add p set) (λ q e f. up p q here (e, f))
            (λ y h. elim (text_cases p y) [
              | inl (b, s) ↦ subst P s here
              | inr (b, d) ↦ all y (ground (arith, has-add p y set))
            ]))
    ]

    complete-All :
        (xs set : List String)
        → ((y : String) → has same y xs ≡ true → P y)
        → ((y : String) → has same y set ≡ true → P y)
        → (y : String) → has same y (complete active xs set) ≡ true
        → P y
    unfolding complete
    complete-All [] set seeds all = all
    complete-All (x ∷ xs) set seeds all =
        complete-All xs (climb (suc (length active)) active (parent_of active x) set)
          (λ y h. seeds y (ground arith))
          (climb-All (suc (length active)) (parent_of active x) set
            (λ p e f. up x p (seeds x (ground (arith, eq_refl x))) (e, f)) all)

  climb-has :
      (n : ℕ) (pid : Option String) (set : List String) (y : String)
      → has same y set ≡ true
      → has same y (climb n active pid set) ≡ true
  unfolding climb
  climb-has zero pid set y h = h
  climb-has (suc n) none set y h = h
  climb-has (suc n) (some p) set y h = elim (Bool-cases (p == "" || has same p set)) [
    | inl done ↦ rw done h
    | inr more ↦
        rw more (climb-has n (parent_of active p) (add p set) y (ground (arith, has-add p y set)))
  ]

  complete-has :
      (xs set : List String) (y : String)
      → has same y set ≡ true
      → has same y (complete active xs set) ≡ true
  unfolding complete
  complete-has [] set y h = h
  complete-has (x ∷ xs) set y h =
      complete-has xs _ y (climb-has (suc (length active)) (parent_of active x) set y h)

  -- The loops of `getUserMenus` end, with just the menus above the ones they start with, themselves
  -- included.
  pub complete_iff :
      (seeds : List String) (z : String)
      → (has same z (complete active seeds seeds) ≡ true)
        ↔ ((x : String) × (has same x seeds ≡ true) × Up active x z)
  complete_iff seeds z = (
    complete-All (λ z. (x : String) × (has same x seeds ≡ true) × Up active x z)
        (λ x y (s, h, u) n. (s, h, above u n)) seeds seeds (λ y h. (y, h, here))
        (λ y h. (y, h, here)) z,
    λ (x, h, u). reaches x z h u,
  )
    where
      reaches :
          (x z : String)
          → has same x seeds ≡ true
          → Up active x z
          → has same z (complete active seeds seeds) ≡ true
      reaches x z h here = complete-has seeds seeds x h
      reaches x z h (above {y} u n) =
          elim (complete-ClosedBut seeds seeds (λ a b g m. inr g) y z (reaches x y h u) n) [
            | inl g ↦ g
            | inr e ↦ absurd e
          ]

  -- The completed set is closed: with a menu it has the menu's parent.
  pub complete-Next :
      (seeds : List String) (x y : String)
      → has same x (complete active seeds seeds) ≡ true
      → Next active x y
      → has same y (complete active seeds seeds) ≡ true
  complete-Next seeds x y h n = elim (complete-ClosedBut seeds seeds (λ a b g m. inr g) x y h n) [
    | inl g ↦ g
    | inr e ↦ absurd e
  ]
