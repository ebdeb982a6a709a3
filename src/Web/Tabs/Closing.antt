-- ===== src/Web/Tabs/Closing.antt =====
-- Where the user lands when tabs close: apps/web/src/stores/tabs-store.ts.
use zhuo_stack.Prelude.{
  ℕ, zero, suc, ◌-◌, ◌+◌, ◌≤◌, ◌≡◌, refl, ◌∙◌, sym, subst, inl, inr, true, false, not, ◌||◌, Option,
  none, some, List, [], ◌∷◌, ◌++◌, String, arith, ◌==◌, eq_iff, filter, any, find?, find_index?,
  get_elem?, take, drop, Bool-cases, Option-cases, text_cases,
}
use zhuo_stack.Prelude.Keyed.{
  has, find, Distinct, find_of_get, find-filter, absent_of_find, has_of_get, get-find_index,
  key_of_find,
}
use zhuo_stack.Web.Tabs.{
  PageTabItem, TabsState, close_tab, close_at, close_others, close_right, keep_left, right_closed,
  or_dashboard,
}
use zhuo_stack.Web.Tabs.Invariant.{
  tab_id, IsValid, pinned, not_home, close_at-IsValid, find_index-some,
}

filter_absent :
    (id : String) (ts : List PageTabItem)
    → has tab_id id ts ≡ false
    → filter (λ t. not (t.id == id)) ts ≡ ts
filter_absent id [] h = refl
filter_absent id (x ∷ ts) h = ground (arith, filter_absent id ts)

-- With distinct ids the filter of `closeTab` removes one position.
filter-eq-splice :
    (ts : List PageTabItem) (i : ℕ) (t : PageTabItem)
    → Distinct tab_id ts
    → get_elem? ts i ≡ some t
    → filter (λ u. not (u.id == t.id)) ts ≡ take i ts ++ drop (suc i) ts
filter-eq-splice [] i t d e = ground arith
filter-eq-splice (x ∷ ts) zero t d e = ground (arith, filter_absent t.id ts, eq_iff x.id t.id)
filter-eq-splice (x ∷ ts) (suc i) t d e =
    ground (arith, filter-eq-splice ts i t d.1 e, has_of_get tab_id ts i t e, eq_iff x.id t.id)

find_index_of_get :
    (ts : List PageTabItem) (i : ℕ) (t : PageTabItem)
    → Distinct tab_id ts
    → get_elem? ts i ≡ some t
    → find_index? (λ u. u.id == t.id) ts ≡ some i
find_index_of_get [] i t d e = ground arith
find_index_of_get (x ∷ ts) zero t d e = ground (arith, eq_iff x.id t.id)
find_index_of_get (x ∷ ts) (suc i) t d e =
    ground (arith, find_index_of_get ts i t d.1 e, has_of_get tab_id ts i t e, eq_iff x.id t.id)

splice-get :
    (ts : List PageTabItem) (i : ℕ) (l t : PageTabItem)
    → get_elem? ts i ≡ some l
    → get_elem? (take (suc i) ts ++ drop (suc (suc i)) ts) i ≡ some l
splice-get [] i l t e = e
splice-get (x ∷ ts) zero l t e = e
splice-get (x ∷ ts) (suc i) l t e = splice-get ts i l t e

-- Closing the active tab, with a tab on its left: exactly that position is removed, the left
-- neighbour becomes active, and `navigate` gets the neighbour's full path.
pub close_tab-left :
    (s : TabsState) (i : ℕ) (t l : PageTabItem)
    → IsValid s
    → get_elem? s.tabs i ≡ some l
    → get_elem? s.tabs (suc i) ≡ some t
    → t.closable ≡ true
    → s.active_tab_id ≡ t.id
    → close_tab t.id s ≡ (
      record { tabs = take (suc i) s.tabs ++ drop (suc (suc i)) s.tabs; active_tab_id = l.id },
      some l.full_path,
    )
unfolding close_tab close_at or_dashboard
close_tab-left s i t l v el et c a =
    let index = find_index_of_get s.tabs (suc i) t v.distinct et in
    let spliced = filter-eq-splice s.tabs (suc i) t v.distinct et in
    rw (index, et, c, close_tab)
      (ground (arith, spliced, splice-get s.tabs i l t el, eq_iff s.active_tab_id t.id))

-- The callback is told where the user now is: without a call the active tab is as before, and a
-- call hands over the full path of the open tab that has become active.
abbrev pub Lands : TabsState → TabsState × Option String → Type 0
Lands s (s', none) = s'.active_tab_id ≡ s.active_tab_id
Lands s (s', some path) =
    (t : PageTabItem) × (find tab_id s'.active_tab_id s'.tabs ≡ some t) × (t.full_path ≡ path)

get_before :
    (ts : List PageTabItem) (i : ℕ) (t : PageTabItem)
    → get_elem? ts (suc i) ≡ some t
    → (l : PageTabItem) × (get_elem? ts i ≡ some l)
get_before [] i t e = absurd (ground arith)
get_before (x ∷ ts) zero t e = (x, refl)
get_before (x ∷ ts) (suc i) t e = get_before ts i t e

-- There always is a neighbour, since the dashboard is left.
neighbour :
    (ts : List PageTabItem) (i : ℕ) (t : PageTabItem)
    → Distinct tab_id ts
    → get_elem? ts i ≡ some t
    → pinned (filter (λ u. not (u.id == t.id)) ts) ≡ true
    → (l : PageTabItem) × (get_elem? (filter (λ u. not (u.id == t.id)) ts) (i - 1) ≡ some l)
neighbour ts zero t d e h =
    elim (filter (λ u. not (u.id == t.id)) ts)
        as (λ us. pinned us ≡ true → (l : PageTabItem) × (get_elem? us 0 ≡ some l)) [
          | [] ↦ λ p. absurd (ground arith)
          | x ∷ us ↦ λ _. (x, refl)
        ]
      h
neighbour ts (suc i) t d e h =
    let (l, el) = get_before ts i t e in
    let before : suc i - 1 ≡ i = omega arith in
    (l, rw (filter-eq-splice ts (suc i) t d e, before) (splice-get ts i l t el))

close_at-Lands :
    (i : ℕ) (s : TabsState) (t : PageTabItem)
    → IsValid s
    → IsValid (close_at t.id i s).0
    → get_elem? s.tabs i ≡ some t
    → Lands s (close_at t.id i s)
unfolding close_at or_dashboard
close_at-Lands i s t v w e = elim (text_cases s.active_tab_id t.id) [
  | inl (b, same) ↦
      let kept : pinned (filter (λ u. not (u.id == t.id)) s.tabs) ≡ true =
        rw (b, close_at) at w.home in
      let d : Distinct tab_id (filter (λ u. not (u.id == t.id)) s.tabs) =
        rw (b, close_at) at w.distinct in
      let (l, el) = neighbour s.tabs i t v.distinct e kept in
      rw (b, close_at, el, or_dashboard) (l, find_of_get tab_id _ (i - 1) l d el, refl)
  | inr (b, _) ↦ rw (b, close_at) refl
]

close_tab-Lands : (id : String) (s : TabsState) → IsValid s → Lands s (close_tab id s)
unfolding close_tab
close_tab-Lands id s v = elim (Option-cases (find_index? (λ u. u.id == id) s.tabs)) [
  | inl e ↦ rw (e, close_tab) refl
  | inr (i, e) ↦ elim (Option-cases (get_elem? s.tabs i)) [
    | inl g ↦ rw (e, g, close_tab) refl
    | inr (t, g) ↦ elim (Bool-cases t.closable) [
      | inl c ↦
          let same : t.id ≡ id =
            key_of_find tab_id id s.tabs t (sym (get-find_index tab_id id s.tabs i e) ∙ g) in
          let kept = close_at-IsValid id i s (not_home id s.tabs i t e g c v.home) v in
          rw (e, g, c, close_tab) (rw (← same) (close_at-Lands i s t v (rw (← same) at kept) g))
      | inr c ↦ rw (e, g, c, close_tab) refl
    ]
  ]
]

close_others-Lands : (id : String) (s : TabsState) → Lands s (close_others id s)
unfolding close_others
close_others-Lands id s = elim (Option-cases (find? (λ u. u.id == id) s.tabs)) [
  | inl e ↦ rw (e, close_others) refl
  | inr (t, e) ↦
      let kept =
        find-filter tab_id id (λ u. not u.closable || u.id == id) s.tabs t e
          (ground (arith, key_of_find tab_id id s.tabs t e, eq_iff t.id id)) in
      elim (text_cases s.active_tab_id id) [
        | inl (b, same) ↦ rw (e, close_others, b) (sym same)
        | inr (b, _) ↦ rw (e, close_others, b) (t, kept, refl)
      ]
]

find-keep_left :
    (n i j : ℕ) (ts : List PageTabItem) (t : PageTabItem)
    → i + j ≤ n
    → Distinct tab_id ts
    → get_elem? ts j ≡ some t
    → find tab_id t.id (keep_left n i ts) ≡ some t
unfolding keep_left
find-keep_left n i j [] t h d e = ground arith
find-keep_left n i zero (x ∷ ts) t h d e = ground (arith, eq_iff x.id t.id)
find-keep_left n i (suc j) (x ∷ ts) t h d e =
    ground (arith, find-keep_left n (i + 1) j ts t, has_of_get tab_id ts j t e, eq_iff x.id t.id)

close_right-Lands : (id : String) (s : TabsState) → IsValid s → Lands s (close_right id s)
unfolding close_right right_closed
close_right-Lands id s v = elim (Option-cases (find_index? (λ u. u.id == id) s.tabs)) [
  | inl e ↦ rw (e, close_right) refl
  | inr (i, e) ↦ elim (Bool-cases (any (λ u. u.id == s.active_tab_id) (keep_left i 0 s.tabs))) [
    | inl a ↦ rw (e, close_right, a, right_closed) refl
    | inr a ↦ elim (Option-cases (find tab_id id s.tabs)) [
      | inl f ↦
          absurd (ground (arith, absent_of_find tab_id id s.tabs f, find_index-some id s.tabs i e))
      | inr (t, f) ↦
          let g = get-find_index tab_id id s.tabs i e ∙ f in
          let same = key_of_find tab_id id s.tabs t f in
          rw (e, close_right, a, right_closed, g)
            (
              t,
              subst (λ k. find tab_id k (keep_left i 0 s.tabs) ≡ some t) same
                  (find-keep_left i 0 i s.tabs t (omega arith) v.distinct g),
              refl,
            )
    ]
  ]
]

-- In a valid state, for each of `closeTab`, `closeOthers` and `closeRight` and any id: if the
-- callback is not called the active tab is unchanged, and if it is called the path is the full
-- path of the open tab that is active afterwards.
pub closing-Lands :
    (id : String) (s : TabsState)
    → IsValid s
    → Lands s (close_tab id s) × Lands s (close_others id s) × Lands s (close_right id s)
closing-Lands id s v = (close_tab-Lands id s v, close_others-Lands id s, close_right-Lands id s v)
