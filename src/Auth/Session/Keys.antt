-- ===== src/Auth/Session/Keys.antt =====
-- The Redis keys of apps/api/src/modules/auth/session.service.ts do not collide.
use Prim.Native.Char.{Char, code}
use Prim.Native.String.{◌++◌, ◌∷◌}
use text.Mathlib.TextLemmas.{cons-append, head-eq_of_cons-eq, append_cancel_left}
use zhuo_stack.Prelude.{
  ℕ, ◌≡◌, ◌≢◌, ap, sym, ◌∙◌, String, ◌==◌, eq_false, eq_refl, false, text_cases, inl, inr, arith,
}
use zhuo_stack.Auth.Session.{active_key, refresh_key, online_key, kicked_key}

pub heads_ne : (a b : Char) (s t u v : String) → code a ≢ code b → (a ∷ s) ++ u ≢ (b ∷ t) ++ v
heads_ne a b s t u v n e =
    n (ap code (head-eq_of_cons-eq (sym (cons-append a s u) ∙ e ∙ cons-append b t v)))

pub active-refresh : (u v : String) → (active_key u == refresh_key v) ≡ false
active-refresh u v = eq_false _ _ (heads_ne "t" "a" "oken:active:" "uth:refresh:" u v (omega arith))

pub active-online : (u v : String) → (active_key u == online_key v) ≡ false
active-online u v = eq_false _ _ (heads_ne "t" "o" "oken:active:" "nline:user:" u v (omega arith))

pub active-kicked : (u v : String) → (active_key u == kicked_key v) ≡ false
active-kicked u v = eq_false _ _ (heads_ne "t" "k" "oken:active:" "icked:user:" u v (omega arith))

pub refresh-active : (u v : String) → (refresh_key u == active_key v) ≡ false
refresh-active u v = eq_false _ _ (heads_ne "a" "t" "uth:refresh:" "oken:active:" u v (omega arith))

pub refresh-online : (u v : String) → (refresh_key u == online_key v) ≡ false
refresh-online u v = eq_false _ _ (heads_ne "a" "o" "uth:refresh:" "nline:user:" u v (omega arith))

pub refresh-kicked : (u v : String) → (refresh_key u == kicked_key v) ≡ false
refresh-kicked u v = eq_false _ _ (heads_ne "a" "k" "uth:refresh:" "icked:user:" u v (omega arith))

pub online-active : (u v : String) → (online_key u == active_key v) ≡ false
online-active u v = eq_false _ _ (heads_ne "o" "t" "nline:user:" "oken:active:" u v (omega arith))

pub online-refresh : (u v : String) → (online_key u == refresh_key v) ≡ false
online-refresh u v = eq_false _ _ (heads_ne "o" "a" "nline:user:" "uth:refresh:" u v (omega arith))

pub online-kicked : (u v : String) → (online_key u == kicked_key v) ≡ false
online-kicked u v = eq_false _ _ (heads_ne "o" "k" "nline:user:" "icked:user:" u v (omega arith))

pub kicked-active : (u v : String) → (kicked_key u == active_key v) ≡ false
kicked-active u v = eq_false _ _ (heads_ne "k" "t" "icked:user:" "oken:active:" u v (omega arith))

pub kicked-refresh : (u v : String) → (kicked_key u == refresh_key v) ≡ false
kicked-refresh u v = eq_false _ _ (heads_ne "k" "a" "icked:user:" "uth:refresh:" u v (omega arith))

pub kicked-online : (u v : String) → (kicked_key u == online_key v) ≡ false
kicked-online u v = eq_false _ _ (heads_ne "k" "o" "icked:user:" "nline:user:" u v (omega arith))

-- One prefix keeps users apart.
pub prefix_eq : (p u v : String) → ((p ++ u) == (p ++ v)) ≡ (u == v)
prefix_eq p u v = elim (text_cases u v) [
  | inl (b, e) ↦ rw (e, eq_refl, eq_refl)
  | inr (b, n) ↦ rw b (eq_false _ _ (λ e. n (append_cancel_left p u v e)))
]

pub active-active : (u v : String) → (active_key u == active_key v) ≡ (u == v)
active-active u v = prefix_eq "token:active:" u v

pub refresh-refresh : (u v : String) → (refresh_key u == refresh_key v) ≡ (u == v)
refresh-refresh u v = prefix_eq "auth:refresh:" u v

pub online-online : (u v : String) → (online_key u == online_key v) ≡ (u == v)
online-online u v = prefix_eq "online:user:" u v

pub kicked-kicked : (u v : String) → (kicked_key u == kicked_key v) ≡ (u == v)
kicked-kicked u v = prefix_eq "kicked:user:" u v

-- All the tests between two keys of this file.
pub ruleset session_keys = (
  active-active, active-refresh, active-online, active-kicked, refresh-active, refresh-refresh,
  refresh-online, refresh-kicked, online-active, online-refresh, online-online, online-kicked,
  kicked-active, kicked-refresh, kicked-online, kicked-kicked, eq_refl,
)
