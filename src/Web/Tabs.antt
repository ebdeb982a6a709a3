-- ===== src/Web/Tabs.antt =====
-- apps/web/src/stores/tabs-store.ts: the page tabs of the dashboard. Each action of the store is a
-- function from the old state to the new one; an action that takes the `navigate` callback also
-- returns the path that it hands to it, if any. `findIndex` gives `none` for -1.
pub mod Invariant
pub mod Closing
mod Tests
use mathlib.Core.Option
use zhuo_stack.Prelude.{
  ℕ, zero, suc, ◌+◌, ◌-◌, ◌≤◌, String, Bool, true, false, not, ◌&&◌, ◌||◌, Option, none, some, List,
  [], ◌∷◌, ◌++◌, map, ◌==◌, if◌then◌else◌, leb, filter, any, find?, find_index?, get_elem?, modify,
  or_text,
}

pub record PageTabItem : Type 0 where
  pub id : String
  pub title : String
  pub path : String
  pub full_path : String
  pub closable : Bool
  pub icon : Option String

-- `Omit<PageTabItem, 'closable'> & { closable?: boolean }`
pub record NewTab : Type 0 where
  pub id : String
  pub title : String
  pub path : String
  pub full_path : String
  pub closable : Option Bool
  pub icon : Option String

abbrev pub dashboard_tab : PageTabItem
dashboard_tab = record {
  id = "/dashboard";
  title = "仪表盘";
  path = "/dashboard";
  full_path = "/dashboard";
  closable = false;
  icon = some "LayoutDashboard";
}

pub record TabsState : Type 0 where
  pub tabs : List PageTabItem
  pub active_tab_id : String

abbrev pub id_is : String → PageTabItem → Bool
id_is id t = t.id == id

unfoldable pub reset_tabs : TabsState
reset_tabs = record { tabs = dashboard_tab ∷ []; active_tab_id = dashboard_tab.id }

retitled : NewTab → PageTabItem → PageTabItem
retitled tab old = record old { title = or_text tab.title old.title; full_path = tab.full_path }

opened : NewTab → PageTabItem
opened tab = record {
  id = tab.id;
  title = tab.title;
  path = tab.path;
  full_path = tab.full_path;
  closable =
      Option.get_or tab.closable
        (not (tab.id == dashboard_tab.id) && not (tab.path == dashboard_tab.path));
  icon = tab.icon;
}

pub add_tab : NewTab → TabsState → TabsState
unfolding retitled opened
add_tab tab s = elim (find_index? (id_is tab.id) s.tabs) [
  | some i ↦ record { tabs = modify i (retitled tab) s.tabs; active_tab_id = tab.id }
  | none ↦ record { tabs = s.tabs ++ opened tab ∷ []; active_tab_id = tab.id }
]

pub set_active_tab_id : String → TabsState → TabsState
set_active_tab_id id s = record s { active_tab_id = id }

pub update_tab_title : String → String → TabsState → TabsState
update_tab_title id title s = record s {
  tabs = map (λ t. if t.id == id then record t { title = title } else t) s.tabs;
}

-- `xs[i] || DASHBOARD_TAB`
pub or_dashboard : Option PageTabItem → PageTabItem
or_dashboard none = dashboard_tab
or_dashboard (some t) = t

pub close_at : String → ℕ → TabsState → TabsState × Option String
unfolding or_dashboard
close_at id target_index s =
    let new_tabs = filter (λ t. not (t.id == id)) s.tabs in
    let next_tab = or_dashboard (get_elem? new_tabs (target_index - 1)) in
    if s.active_tab_id == id
    then (record { tabs = new_tabs; active_tab_id = next_tab.id }, some next_tab.full_path)
    else (record s { tabs = new_tabs }, none)

pub close_tab : String → TabsState → TabsState × Option String
unfolding close_at
close_tab id s = elim (find_index? (id_is id) s.tabs) [
  | none ↦ (s, none)
  | some i ↦ elim (get_elem? s.tabs i) [
    | none ↦ (s, none)
    | some target ↦ if target.closable then close_at id i s else (s, none)
  ]
]

pub close_others : String → TabsState → TabsState × Option String
close_others id s = elim (find? (id_is id) s.tabs) [
  | none ↦ (s, none)
  | some target ↦ (
    record { tabs = filter (λ t. not t.closable || t.id == id) s.tabs; active_tab_id = id },
    if s.active_tab_id == id then none else some target.full_path,
  )
]

-- `tabs.filter((t, idx) => idx <= targetIndex || !t.closable)`, from the index `idx` on
keep_left : ℕ → ℕ → List PageTabItem → List PageTabItem
keep_left target_index idx [] = []
keep_left target_index idx (t ∷ ts) =
    if leb idx target_index || not t.closable
    then t ∷ keep_left target_index (idx + 1) ts
    else keep_left target_index (idx + 1) ts

right_closed :
    String → List PageTabItem → Option PageTabItem → TabsState → TabsState × Option String
right_closed id new_tabs target s =
    if any (id_is s.active_tab_id) new_tabs
    then (record s { tabs = new_tabs }, none)
    else (record { tabs = new_tabs; active_tab_id = id }, Option.map (λ t. t.full_path) target)

pub close_right : String → TabsState → TabsState × Option String
unfolding right_closed
close_right id s = elim (find_index? (id_is id) s.tabs) [
  | none ↦ (s, none)
  | some i ↦ right_closed id (keep_left i 0 s.tabs) (get_elem? s.tabs i) s
]

pub close_all : TabsState → TabsState × Option String
close_all s =
    let unclosable = filter (λ t. not t.closable) s.tabs in
    (
      record {
        tabs = elim unclosable [ [] ↦ dashboard_tab ∷ [] | t ∷ ts ↦ t ∷ ts ];
        active_tab_id = dashboard_tab.id;
      },
      some dashboard_tab.full_path,
    )

-- What a user of the store may do, `setActiveTabId` aside, and the state that follows.
pub data Act : Type 0 where
  reset closing_all : Act
  add : NewTab → Act
  rename : String → String → Act
  closing closing_others closing_right : String → Act

unfoldable pub act : Act → TabsState → TabsState
act reset s = reset_tabs
act closing_all s = (close_all s).0
act (add tab) s = add_tab tab s
act (rename id title) s = update_tab_title id title s
act (closing id) s = (close_tab id s).0
act (closing_others id) s = (close_others id s).0
act (closing_right id) s = (close_right id s).0

unfoldable pub run : List Act → TabsState → TabsState
run [] s = s
run (a ∷ as_) s = run as_ (act a s)
