-- ===== src/Web/Tabs/Invariant.antt =====
-- The invariant of the page tabs, apps/web/src/stores/tabs-store.ts: whatever the user adds,
-- renames and closes, the dashboard tab stays, no tab is doubled and the active tab is open.
use zhuo_stack.Prelude.{
  ℕ, zero, suc, ◌+◌, ◌-◌, ◌≤◌, ◌≡◌, refl, ◌∙◌, ◌≢◌, inl, inr, Bool, true, false, not, ◌||◌, none,
  some, List, [], ◌∷◌, ◌++◌, map, String, arith, ◌==◌, eq_iff, if◌then◌else◌, filter, any, find?,
  find_index?, get_elem?, modify, Bool-cases, Option-cases, text_cases,
}
use zhuo_stack.Prelude.Keyed.{
  has, find, Distinct, absent_of_find, has-append, has_of_find, key_of_find, find-filter,
  Distinct-filter, Distinct-append_one, has-map, Distinct-map, has-filter_ne, has_of_get,
  get-find_index,
}
use zhuo_stack.Web.Tabs.{
  PageTabItem, NewTab, TabsState, Act, reset, closing_all, add, rename, closing, closing_others,
  closing_right, dashboard_tab, reset_tabs, add_tab, update_tab_title, close_tab, close_at,
  close_others, keep_left, close_right, right_closed, close_all, or_dashboard, retitled, opened,
  act, run,
}

abbrev pub tab_id : PageTabItem → String
tab_id t = t.id

-- The tab that the dashboard's id finds cannot be closed.
abbrev pub pinned : List PageTabItem → Bool
pinned ts = elim (find tab_id "/dashboard" ts) [ none ↦ false | some t ↦ not t.closable ]

pub record IsValid (s : TabsState) : Type 0 where
  pub distinct : Distinct tab_id s.tabs
  pub home : pinned s.tabs ≡ true
  pub active : has tab_id s.active_tab_id s.tabs ≡ true

pub pinned_tab :
    (ts : List PageTabItem)
    → pinned ts ≡ true
    → (t : PageTabItem) × (find tab_id "/dashboard" ts ≡ some t) × (t.closable ≡ false)
pinned_tab ts h = elim (Option-cases (find tab_id "/dashboard" ts)) [
  | inl e ↦ ground arith
  | inr (t, e) ↦ (t, e, ground arith)
]

pub has_home : (ts : List PageTabItem) → pinned ts ≡ true → has tab_id "/dashboard" ts ≡ true
has_home ts h = let (t, e, _) = pinned_tab ts h in has_of_find tab_id "/dashboard" ts t e

-- A filter that keeps what cannot be closed keeps the dashboard.
pinned-filter :
    (p : PageTabItem → Bool) (ts : List PageTabItem)
    → ((t : PageTabItem) → t.id ≡ "/dashboard" → t.closable ≡ false → p t ≡ true)
    → pinned ts ≡ true
    → pinned (filter p ts) ≡ true
pinned-filter p ts keep h =
    let (t, e, c) = pinned_tab ts h in
    ground (
      arith,
      find-filter tab_id "/dashboard" p ts t e (keep t (key_of_find tab_id "/dashboard" ts t e) c),
    )

pinned-append :
    (ts : List PageTabItem) (t : PageTabItem) → pinned ts ≡ true → pinned (ts ++ t ∷ []) ≡ true
pinned-append [] t h = ground arith
pinned-append (x ∷ ts) t h = ground (arith, pinned-append ts t)

pinned-map :
    (f : PageTabItem → PageTabItem) (ts : List PageTabItem)
    → ((t : PageTabItem) → (f t).id ≡ t.id)
    → ((t : PageTabItem) → (f t).closable ≡ t.closable)
    → pinned ts ≡ true
    → pinned (map f ts) ≡ true
pinned-map f [] i c h = h
pinned-map f (x ∷ ts) i c h = ground (arith, i x, c x, pinned-map f ts i c)

module _ (f : PageTabItem → PageTabItem) (same_id : (t : PageTabItem) → (f t).id ≡ t.id)
    (same_closable : (t : PageTabItem) → (f t).closable ≡ t.closable) where
  has-modify :
      (k : String) (i : ℕ) (ts : List PageTabItem) → has tab_id k (modify i f ts) ≡ has tab_id k ts
  has-modify k i [] = refl
  has-modify k zero (x ∷ ts) = ground (arith, same_id x)
  has-modify k (suc i) (x ∷ ts) = ground (arith, has-modify k i ts)

  pinned-modify : (i : ℕ) (ts : List PageTabItem) → pinned ts ≡ true → pinned (modify i f ts) ≡ true
  pinned-modify i [] h = h
  pinned-modify zero (x ∷ ts) h = ground (arith, same_id x, same_closable x)
  pinned-modify (suc i) (x ∷ ts) h = ground (arith, pinned-modify i ts)

  Distinct-modify :
      (i : ℕ) (ts : List PageTabItem) → Distinct tab_id ts → Distinct tab_id (modify i f ts)
  Distinct-modify i [] d = d
  Distinct-modify zero (x ∷ ts) d = ground (arith, same_id x)
  Distinct-modify (suc i) (x ∷ ts) d =
      ground (arith, has-modify x.id i ts, Distinct-modify i ts d.1)

find_index-none :
    (k : String) (ts : List PageTabItem)
    → find_index? (λ t. t.id == k) ts ≡ none
    → has tab_id k ts ≡ false
find_index-none k [] h = refl
find_index-none k (x ∷ ts) h = elim (Option-cases (find_index? (λ t. t.id == k) ts)) [
  | inl e ↦ ground (arith, find_index-none k ts)
  | inr (j, e) ↦ ground arith
]

pub find_index-some :
    (k : String) (ts : List PageTabItem) (i : ℕ)
    → find_index? (λ t. t.id == k) ts ≡ some i
    → has tab_id k ts ≡ true
find_index-some k [] i h = ground arith
find_index-some k (x ∷ ts) i h = elim (Option-cases (find_index? (λ t. t.id == k) ts)) [
  | inl e ↦ ground arith
  | inr (j, e) ↦ ground (arith, find_index-some k ts j)
]

add_tab-IsValid : (tab : NewTab) (s : TabsState) → IsValid s → IsValid (add_tab tab s)
unfolding add_tab
add_tab-IsValid tab s v = elim (Option-cases (find_index? (λ t. t.id == tab.id) s.tabs)) [
  | inl e ↦
      rw (e, add_tab)
        (record {
          distinct =
              Distinct-append_one tab_id s.tabs (opened tab) v.distinct
                (find_index-none tab.id s.tabs e);
          home = pinned-append s.tabs (opened tab) v.home;
          active =
              ground
                (arith, has-append tab_id tab.id s.tabs (opened tab ∷ []), eq_iff tab.id tab.id);
        })
  | inr (i, e) ↦
      rw (e, add_tab)
        (record {
          distinct = Distinct-modify (retitled tab) (λ t. refl) (λ t. refl) i s.tabs v.distinct;
          home = pinned-modify (retitled tab) (λ t. refl) (λ t. refl) i s.tabs v.home;
          active = ground (
            arith,
            has-modify (retitled tab) (λ t. refl) (λ t. refl) tab.id i s.tabs,
            find_index-some tab.id s.tabs i,
          );
        })
]

update_tab_title-IsValid :
    (id title : String) (s : TabsState) → IsValid s → IsValid (update_tab_title id title s)
unfolding update_tab_title
update_tab_title-IsValid id title s v = record {
  distinct = Distinct-map tab_id rename_one s.tabs same_id v.distinct;
  home = pinned-map rename_one s.tabs same_id (λ t. ground arith) v.home;
  active = ground (arith, has-map tab_id s.active_tab_id rename_one s.tabs same_id, v.active);
}
  where
    rename_one : PageTabItem → PageTabItem
    rename_one t = if t.id == id then record t { title = title } else t

    same_id : (t : PageTabItem) → (rename_one t).id ≡ t.id
    same_id t = ground arith

or_dashboard-has :
    (ts : List PageTabItem) (i : ℕ)
    → pinned ts ≡ true
    → has tab_id (or_dashboard (get_elem? ts i)).id ts ≡ true
unfolding or_dashboard
or_dashboard-has ts i h = elim (Option-cases (get_elem? ts i)) [
  | inl e ↦ rw (e, or_dashboard) (has_home ts h)
  | inr (t, e) ↦ rw (e, or_dashboard) (has_of_get tab_id ts i t e)
]

-- The tab that `closeTab` removes is closable, so it is not the dashboard.
pub not_home :
    (id : String) (ts : List PageTabItem) (i : ℕ) (t : PageTabItem)
    → find_index? (λ u. u.id == id) ts ≡ some i
    → get_elem? ts i ≡ some t
    → t.closable ≡ true
    → pinned ts ≡ true
    → id ≢ "/dashboard"
not_home id ts i t e g c h same =
    let (u, f, k) = pinned_tab ts h in
    let p = get-find_index tab_id id ts i e in let q = rw same at p in ground arith

pub close_at-IsValid :
    (id : String) (i : ℕ) (s : TabsState)
    → id ≢ "/dashboard"
    → IsValid s
    → IsValid (close_at id i s).0
unfolding close_at
close_at-IsValid id i s n v =
    let kept =
      pinned-filter (λ t. not (t.id == id)) s.tabs (λ t e c. ground (arith, eq_iff t.id id))
        v.home in
    let still = Distinct-filter tab_id (λ t. not (t.id == id)) s.tabs v.distinct in
    elim (text_cases s.active_tab_id id) [
      | inl (b, e) ↦
          rw (b, close_at)
            (record {
              distinct = still;
              home = kept;
              active = or_dashboard-has (filter (λ t. not (t.id == id)) s.tabs) (i - 1) kept;
            })
      | inr (b, e) ↦
          rw (b, close_at)
            (record {
              distinct = still;
              home = kept;
              active = has-filter_ne tab_id s.active_tab_id id s.tabs e v.active;
            })
    ]

close_tab-IsValid : (id : String) (s : TabsState) → IsValid s → IsValid (close_tab id s).0
unfolding close_tab
close_tab-IsValid id s v = elim (Option-cases (find_index? (λ u. u.id == id) s.tabs)) [
  | inl e ↦ rw (e, close_tab) v
  | inr (i, e) ↦ elim (Option-cases (get_elem? s.tabs i)) [
    | inl g ↦ rw (e, g, close_tab) v
    | inr (t, g) ↦ elim (Bool-cases t.closable) [
      | inl c ↦
          rw (e, g, c, close_tab) (close_at-IsValid id i s (not_home id s.tabs i t e g c v.home) v)
      | inr c ↦ rw (e, g, c, close_tab) v
    ]
  ]
]

close_others-IsValid : (id : String) (s : TabsState) → IsValid s → IsValid (close_others id s).0
unfolding close_others
close_others-IsValid id s v = elim (Option-cases (find? (λ u. u.id == id) s.tabs)) [
  | inl e ↦ rw (e, close_others) v
  | inr (t, e) ↦
      rw (e, close_others)
        (record {
          distinct = Distinct-filter tab_id (λ u. not u.closable || u.id == id) s.tabs v.distinct;
          home =
              pinned-filter (λ u. not u.closable || u.id == id) s.tabs (λ u _ c. ground arith)
                v.home;
          active = has_of_find tab_id id _ t (
              find-filter tab_id id (λ u. not u.closable || u.id == id) s.tabs t e
                (ground (arith, key_of_find tab_id id s.tabs t e, eq_iff t.id id)));
        })
]

has-keep_left :
    (k : String) (n i : ℕ) (ts : List PageTabItem)
    → has tab_id k ts ≡ false
    → has tab_id k (keep_left n i ts) ≡ false
unfolding keep_left
has-keep_left k n i [] h = h
has-keep_left k n i (x ∷ ts) h = ground (arith, has-keep_left k n (i + 1) ts)

Distinct-keep_left :
    (n i : ℕ) (ts : List PageTabItem) → Distinct tab_id ts → Distinct tab_id (keep_left n i ts)
unfolding keep_left
Distinct-keep_left n i [] d = d
Distinct-keep_left n i (x ∷ ts) d =
    ground (arith, Distinct-keep_left n (i + 1) ts d.1, has-keep_left x.id n (i + 1) ts d.0)

pinned-keep_left :
    (n i : ℕ) (ts : List PageTabItem) → pinned ts ≡ true → pinned (keep_left n i ts) ≡ true
unfolding keep_left
pinned-keep_left n i [] h = h
pinned-keep_left n i (x ∷ ts) h = ground (arith, pinned-keep_left n (i + 1) ts)

-- The target and all to its left are kept.
keep_left-get :
    (n i j : ℕ) (ts : List PageTabItem) (t : PageTabItem)
    → i + j ≤ n
    → get_elem? ts j ≡ some t
    → has tab_id t.id (keep_left n i ts) ≡ true
unfolding keep_left
keep_left-get n i j [] t h e = ground arith
keep_left-get n i zero (x ∷ ts) t h e = ground (arith, eq_iff x.id t.id)
keep_left-get n i (suc j) (x ∷ ts) t h e = ground (arith, keep_left-get n (i + 1) j ts t)

kept_target :
    (id : String) (ts : List PageTabItem) (i : ℕ)
    → find_index? (λ u. u.id == id) ts ≡ some i
    → has tab_id id (keep_left i 0 ts) ≡ true
kept_target id ts i e = elim (Option-cases (find tab_id id ts)) [
  | inl g ↦ ground (arith, absent_of_find tab_id id ts g, find_index-some id ts i e)
  | inr (t, g) ↦
      let same : t.id ≡ id = key_of_find tab_id id ts t g in
      rw same at (keep_left-get i 0 i ts t (omega arith) (get-find_index tab_id id ts i e ∙ g))
]

close_right-IsValid : (id : String) (s : TabsState) → IsValid s → IsValid (close_right id s).0
unfolding close_right right_closed
close_right-IsValid id s v = elim (Option-cases (find_index? (λ u. u.id == id) s.tabs)) [
  | inl e ↦ rw (e, close_right) v
  | inr (i, e) ↦
      let d = Distinct-keep_left i 0 s.tabs v.distinct in
      let h = pinned-keep_left i 0 s.tabs v.home in
      elim (Bool-cases (any (λ u. u.id == s.active_tab_id) (keep_left i 0 s.tabs))) [
        | inl a ↦
            rw (e, close_right, a, right_closed) (record { distinct = d; home = h; active = a })
        | inr a ↦
            rw (e, close_right, a, right_closed)
              (record { distinct = d; home = h; active = kept_target id s.tabs i e })
      ]
]

all_closed :
    (ts : List PageTabItem)
    → pinned ts ≡ true
    → Distinct tab_id ts
    → IsValid (record {
      tabs = elim ts [ [] ↦ dashboard_tab ∷ [] | u ∷ us ↦ u ∷ us ];
      active_tab_id = dashboard_tab.id;
    })
all_closed [] h d = ground arith
all_closed (t ∷ ts) h d = record { distinct = d; home = h; active = has_home (t ∷ ts) h }

close_all-IsValid : (s : TabsState) → IsValid s → IsValid (close_all s).0
unfolding close_all
close_all-IsValid s v =
    let kept = pinned-filter (λ t. not t.closable) s.tabs (λ t _ c. ground arith) v.home in
    all_closed (filter (λ t. not t.closable) s.tabs) kept
      (Distinct-filter tab_id (λ t. not t.closable) s.tabs v.distinct)

reset_tabs-IsValid : IsValid reset_tabs
unfolding reset_tabs
reset_tabs-IsValid = record { distinct = (refl, tt); home = refl; active = refl }

act-IsValid : (a : Act) (s : TabsState) → IsValid s → IsValid (act a s)
unfolding act
act-IsValid reset s v = reset_tabs-IsValid
act-IsValid closing_all s v = close_all-IsValid s v
act-IsValid (add tab) s v = add_tab-IsValid tab s v
act-IsValid (rename id title) s v = update_tab_title-IsValid id title s v
act-IsValid (closing id) s v = close_tab-IsValid id s v
act-IsValid (closing_others id) s v = close_others-IsValid id s v
act-IsValid (closing_right id) s v = close_right-IsValid id s v

run-IsValid : (acts : List Act) (s : TabsState) → IsValid s → IsValid (run acts s)
unfolding run
run-IsValid [] s v = v
run-IsValid (a ∷ acts) s v = run-IsValid acts (act a s) (act-IsValid a s v)

-- From the store's first state, after any sequence of additions, renamings and closings: the tabs
-- have distinct ids, the dashboard tab is there and cannot be closed, and the active id is that of
-- an open tab.
pub run-reset_tabs-IsValid : (acts : List Act) → IsValid (run acts reset_tabs)
run-reset_tabs-IsValid acts = run-IsValid acts reset_tabs reset_tabs-IsValid
