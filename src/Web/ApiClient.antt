-- ===== src/Web/ApiClient.antt =====
-- The interceptors of apps/web/src/lib/api-client.ts: the requests of a page, the one refresh of the
-- session that they share, and what they do to the progress bar, the session and the tabs. A
-- request stays in the list when it is settled. What the network does is a step: an answer to a request
-- that is out, or to the refresh. Whether a request that is sent again has a copy of its
-- configuration is axios's matter, and an argument. What a rejected promise carries is left out.
pub mod Weights
pub mod Settling
pub mod Liveness
pub mod Retried
mod Tests
use mathlib.Core.Option
use Prim.Native.String
use text.Mathlib.Text.{starts_with}
use zhuo_stack.Prelude.{
  ℕ, zero, suc, ◌+◌, ◌≡◌, Bool, true, false, not, ◌&&◌, ◌||◌, Option, none, some, List, [], ◌∷◌,
  ◌++◌, map, String, ◌==◌, if◌then◌else◌, eqb, any, get_elem?, modify, or_text,
}
use zhuo_stack.Web.Progress
use zhuo_stack.Web.Progress.{Numbers, ProgressState, start, done}
use zhuo_stack.Web.Tabs.{TabsState, reset_tabs}

-- Out at the server, waiting for the refresh, or settled.
pub data Phase : Type 0 where
  sent waiting settled : Phase

pub record Request : Type 0 where
  pub url : String
  pub retry : Bool
  pub progress_started : Bool
  pub phase : Phase

abbrev pub is_waiting : Request → Bool
is_waiting r = elim r.phase [ waiting ↦ true | _ ↦ false ]

-- `path(?:\?|$)`, at the start of a text.
abbrev pub ends_path : String → String → String → Bool
ends_path path path_query s = s == path || starts_with s path_query

unfoldable pub is_auth_entry_request : String → Bool
is_auth_entry_request String.[] = false
is_auth_entry_request (String.◌∷◌ c s) =
    let here = String.◌∷◌ c s in
    (ends_path "/auth/login" "/auth/login?" here
      || (ends_path "/auth/register" "/auth/register?" here
          || ends_path "/auth/refresh" "/auth/refresh?" here))
    || is_auth_entry_request s

abbrev pub or_expired : Option String → String
or_expired none = "登录已过期，请重新登录"
or_expired (some m) = or_text m "登录已过期，请重新登录"

abbrev pub settle : Request → Request
settle r = record r { progress_started = false; phase = settled }

abbrev pub resend : Request → Request
resend r = if is_waiting r then record r { phase = sent } else r

abbrev pub give_up : Request → Request
give_up r = if is_waiting r then settle r else r

module _ (numbers : Numbers) (copies_config : Bool) where
  pub record Page : Type 0 where
    pub requests : List Request
    pub refreshing : Bool
    pub authenticated : Bool
    pub redirecting : Bool
    pub progress : ProgressState numbers
    pub tabs : TabsState
    pub toasts : List String

  -- A page of a session, before its first request.
  abbrev pub opened : TabsState → Page
  opened tabs = record {
    requests = [];
    refreshing = false;
    authenticated = true;
    redirecting = false;
    progress = Progress.initial numbers;
    tabs = tabs;
    toasts = [];
  }

  unfoldable pub handle_session_expired : Option String → Page → Page
  handle_session_expired message p = if p.redirecting then p else record p {
    redirecting = true;
    toasts = or_expired message ∷ p.toasts;
    authenticated = false;
    tabs = reset_tabs;
  }

  abbrev pub change : ℕ → (Request → Request) → Page → Page
  change i f p = record p { requests = modify i f p.requests }

  -- A request that the page makes; the interceptor starts the bar.
  unfoldable pub request : String → Page → Page
  request url p = record p {
    requests =
        p.requests
        ++ (record { url = url; retry = false; progress_started = true; phase = sent } ∷ []);
    progress = start numbers p.progress;
  }

  -- `if (_progressStarted) { _progressStarted = false; done() }`
  unfoldable pub finish : Bool → Page → Page
  finish started p = if started then record p { progress = done numbers p.progress } else p

  unfoldable pub on_response : ℕ → Request → Page → Page
  on_response i r p = finish r.progress_started (change i settle p)

  -- The last part of the error handler.
  unfoldable pub reject : ℕ → Request → Option ℕ → Option String → Page → Page
  reject i r status message p =
      let done_page = finish r.progress_started (change i settle p) in
      if elim status [ none ↦ false | some s ↦ eqb s 401 ] && p.authenticated
      then handle_session_expired message done_page
      else done_page

  -- The `catch` around the refresh and the repeated request. A configuration that was not copied is
  -- finished already.
  unfoldable pub catch_retried : Request → Option String → Page → Page
  catch_retried r message p =
      handle_session_expired message (finish (r.progress_started && copies_config) p)

  abbrev pub needs_refresh : Request → Option ℕ → Page → Bool
  needs_refresh r status p =
      (elim status [ none ↦ false | some s ↦ eqb s 401 ])
      && (p.authenticated && (not r.retry && not (is_auth_entry_request r.url)))

  -- An answer with an error status, or none at all. The refresh is sent where none is out.
  unfoldable pub on_error : ℕ → Request → Option ℕ → Option String → Page → Page
  on_error i r status message p =
      if needs_refresh r status p
      then record (change i (λ q. record q { retry = true; phase = waiting }) p) {
        refreshing = true;
      }
      else if r.retry
      then catch_retried r message (reject i r status message p)
      else reject i r status message p

  -- The refresh succeeded: the requests that waited for it are sent again.
  unfoldable pub on_refreshed : Page → Page
  on_refreshed p = record p { refreshing = false; requests = map resend p.requests }

  -- The `catch` of each request that waited.
  unfoldable pub expire_waiting : Option String → List Request → Page → Page
  expire_waiting message [] p = p
  expire_waiting message (r ∷ rs) p =
      expire_waiting message rs
        (if is_waiting r then handle_session_expired message (finish r.progress_started p) else p)

  -- The refresh failed: the requests that waited for it are rejected.
  unfoldable pub on_refresh_failed : Option String → Page → Page
  on_refresh_failed message p =
      expire_waiting message p.requests
        (record p { refreshing = false; requests = map give_up p.requests })

  -- An answer of the network to what is out.
  pub data Answer (p : Page) : Page → Type 0 where
    responded :
        (i : ℕ) (r : Request)
        → get_elem? p.requests i ≡ some r
        → r.phase ≡ sent
        → Answer p (on_response i r p)
    failed :
        (i : ℕ) (r : Request) (status : Option ℕ) (message : Option String)
        → get_elem? p.requests i ≡ some r
        → r.phase ≡ sent
        → Answer p (on_error i r status message p)
    refreshed : p.refreshing ≡ true → Answer p (on_refreshed p)
    refresh_failed :
        (message : Option String) → p.refreshing ≡ true → Answer p (on_refresh_failed message p)

  pub data Reaches (p : Page) : Page → Type 0 where
    here : Reaches p p
    requested : {q : Page} (url : String) → Reaches p q → Reaches p (request url q)
    answered : {q r : Page} → Reaches p q → Answer q r → Reaches p r

  -- A number of answers, with no new request between them.
  pub data Answers (p : Page) : ℕ → Page → Type 0 where
    none_yet : Answers p 0 p
    one_more : {n : ℕ} {q r : Page} → Answers p n q → Answer q r → Answers p (suc n) r
