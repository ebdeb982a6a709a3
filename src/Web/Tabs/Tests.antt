-- ===== src/Web/Tabs/Tests.antt =====
-- The page tabs at concrete states.
use zhuo_stack.Prelude.{◌≡◌, refl, true, some, none, [], ◌∷◌}
use zhuo_stack.Web.Tabs.{
  PageTabItem, NewTab, TabsState, add, rename, closing, closing_right, reset_tabs, dashboard_tab,
  close_tab, close_others, close_right, run,
}
use zhuo_stack.Web.Tabs.Invariant.{IsValid, run-reset_tabs-IsValid}
use zhuo_stack.Web.Tabs.Closing.{Lands, closing-Lands}

abbrev user_tab : PageTabItem
user_tab = record {
  id = "/system/user";
  title = "用户";
  path = "/system/user";
  full_path = "/system/user?page=2";
  closable = true;
  icon = none;
}

abbrev new_user_tab : NewTab
new_user_tab = record {
  id = "/system/user";
  title = "用户";
  path = "/system/user";
  full_path = "/system/user";
  closable = none;
  icon = none;
}

abbrev two_tabs : TabsState
two_tabs = record { tabs = dashboard_tab ∷ user_tab ∷ []; active_tab_id = "/system/user" }

two_tabs-IsValid : IsValid two_tabs
two_tabs-IsValid = record { distinct = (refl, (refl, tt)); home = refl; active = refl }

close_user : (close_tab "/system/user" two_tabs).1 ≡ some "/dashboard"
unfolding close_tab
close_user = refl

close_dashboard : close_tab "/dashboard" two_tabs ≡ (two_tabs, none)
unfolding close_tab
close_dashboard = refl

run-reset_tabs-IsValid_example : IsValid (
    run
      (add new_user_tab
        ∷ rename "/system/user" "x"
        ∷ closing "/dashboard"
        ∷ closing_right "/dashboard"
        ∷ [])
      reset_tabs)
run-reset_tabs-IsValid_example = run-reset_tabs-IsValid (
    add new_user_tab
    ∷ rename "/system/user" "x"
    ∷ closing "/dashboard"
    ∷ closing_right "/dashboard"
    ∷ [])

closing-Lands_example :
    Lands two_tabs (close_tab "/dashboard" two_tabs)
    × Lands two_tabs (close_others "/dashboard" two_tabs)
    × Lands two_tabs (close_right "/dashboard" two_tabs)
closing-Lands_example = closing-Lands "/dashboard" two_tabs two_tabs-IsValid
