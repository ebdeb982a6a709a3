-- ===== src/Web/ApiClient/Tests.antt =====
-- A session whose refresh fails, and one whose repeated request fails.
use zhuo_stack.Prelude.{
  ℕ, ◌+◌, ◌≡◌, ◌≤◌, ◌*◌, ◌⊎◌, refl, ltb, true, false, none, some, length, get_elem?,
}
use zhuo_stack.Web.Progress.{Numbers}
use zhuo_stack.Web.Tabs.{reset_tabs}
use zhuo_stack.Web.ApiClient.{
  sent, is_auth_entry_request, opened, request, on_error, on_refreshed, on_refresh_failed, Reaches,
  here, requested, answered, failed, refreshed, refresh_failed, Answers, none_yet, one_more, Answer,
  Page,
}
use zhuo_stack.Web.ApiClient.Weights.{weight}
use zhuo_stack.Web.ApiClient.Settling.{unsettled}
use zhuo_stack.Web.ApiClient.Liveness.{Answers-settle}
use zhuo_stack.Web.ApiClient.Retried.{Ended, OneNotice, Reaches-OneNotice, retried_failure-Ended}

-- Whole numbers, growing by one.
abbrev whole : Numbers
whole = record { Number = ℕ; of_nat = λ n. n; below_85 = λ n. ltb n 85; grown = λ n. n + 1 }

abbrev P : Type 0
P = Page whole true

-- A page with one request that waits for the refresh.
abbrev one_out : P
one_out = request whole true "/system/user" (opened whole true reset_tabs)

abbrev expired_once : P
expired_once =
    on_error whole true 0
      (record { url = "/system/user"; retry = false; progress_started = true; phase = sent })
      (some 401) none one_out

waits : Reaches whole true (opened whole true reset_tabs) expired_once
unfolding on_error request is_auth_entry_request
waits = answered (requested "/system/user" here) (failed 0 _ (some 401) none refl refl)

abbrev logged_out : P
logged_out = on_refresh_failed whole true none expired_once

ends : Reaches whole true (opened whole true reset_tabs) logged_out
unfolding on_error request is_auth_entry_request
ends = answered waits (refresh_failed none refl)

one_answer : Answers whole true expired_once 1 logged_out
unfolding on_error request is_auth_entry_request
one_answer = one_more none_yet (refresh_failed none refl)

Answers-settle_example :
    (1 ≤ 3 * length expired_once.requests)
    × (((weight unsettled logged_out.requests ≡ 0) × (logged_out.progress.active_requests ≡ 0))
        ⊎ ((r : P) × Answer whole true logged_out r))
Answers-settle_example =
    Answers-settle whole true reset_tabs 1 expired_once logged_out waits one_answer

Reaches-OneNotice_example : OneNotice whole true logged_out
Reaches-OneNotice_example = Reaches-OneNotice whole true reset_tabs ends

-- The repeated request fails at the server.
abbrev sent_again : P
sent_again = on_refreshed whole true expired_once

again : Reaches whole true (opened whole true reset_tabs) sent_again
unfolding on_error request is_auth_entry_request
again = answered waits (refreshed refl)

at_first :
    get_elem? sent_again.requests 0
    ≡ some (record { url = "/system/user"; retry = true; progress_started = true; phase = sent })
unfolding on_error request is_auth_entry_request on_refreshed
at_first = refl

retried_failure-Ended_example : Ended whole true (
    on_error whole true 0
      (record { url = "/system/user"; retry = true; progress_started = true; phase = sent })
      (some 500)
      none
      sent_again)
retried_failure-Ended_example =
    retried_failure-Ended whole true reset_tabs sent_again again 0
      (record { url = "/system/user"; retry = true; progress_started = true; phase = sent })
      (some 500) none at_first refl
