-- ===== src/Web/ApiClient/Retried.antt =====
-- How a session ends, in apps/web/src/lib/api-client.ts.
use zhuo_stack.Prelude.{
  ℕ, ◌≡◌, refl, sym, subst, ◌⊎◌, Bool, true, false, not, ◌&&◌, Option, none, some, List, [], ◌∷◌,
  String, arith, if◌then◌else◌, eqb, Bool-cases, inl, inr, get_elem?, length,
}
use zhuo_stack.Web.Progress.{Numbers}
use zhuo_stack.Web.Tabs.{TabsState, reset_tabs}
use zhuo_stack.Web.ApiClient.{
  Request, waiting, is_auth_entry_request, Page, opened, handle_session_expired, finish, on_error,
  reject, catch_retried, needs_refresh, is_waiting, expire_waiting, on_response, on_refreshed,
  on_refresh_failed, request, Reaches, here, requested, answered, Answer, responded, failed,
  refreshed, refresh_failed, change, settle,
}

module _ (numbers : Numbers) (copies_config : Bool) where
  abbrev P : Type 0
  P = Page numbers copies_config

  -- The session has ended: the page shows it, closes its tabs and is about to leave.
  abbrev pub Ended : P → Type 0
  Ended p = (p.authenticated ≡ false) × (p.redirecting ≡ true) × (p.tabs ≡ reset_tabs)

  -- The session goes on, or it has ended with one notice.
  abbrev pub OneNotice : P → Type 0
  OneNotice p =
      ((p.redirecting ≡ false) × (p.authenticated ≡ true) × (p.toasts ≡ []))
      ⊎ (Ended p × (length p.toasts ≡ 1))

  expired-Ended :
      (message : Option String) (p : P)
      → OneNotice p
      → Ended (handle_session_expired numbers copies_config message p)
        × (length (handle_session_expired numbers copies_config message p).toasts ≡ 1)
  unfolding handle_session_expired
  expired-Ended message p (inl (off, on, none_)) = rw off ((refl, refl, refl), rw none_ refl)
  expired-Ended message p (inr h) =
      subst (λ q. Ended q × (length q.toasts ≡ 1)) (sym (chosen _ p.redirecting (h.0).1)) h
    where
      chosen : (q : P) (b : Bool) → b ≡ true → (if b then p else q) ≡ p
      chosen q b e = rw e refl

  finish-OneNotice :
      (started : Bool) (p : P) → OneNotice p → OneNotice (finish numbers copies_config started p)
  unfolding finish
  finish-OneNotice true p h = h
  finish-OneNotice false p h = h

  reject-OneNotice :
      (i : ℕ) (r : Request) (status : Option ℕ) (message : Option String) (p : P)
      → OneNotice p
      → OneNotice (reject numbers copies_config i r status message p)
  unfolding reject
  reject-OneNotice i r status message p h =
      let q =
        finish numbers copies_config r.progress_started (change numbers copies_config i settle p) in
      let k = finish-OneNotice r.progress_started (change numbers copies_config i settle p) h in
      elim (Bool-cases ((elim status [ none ↦ false | some s ↦ eqb s 401 ]) && p.authenticated)) [
        | inl on ↦ rw on (inr (expired-Ended message q k))
        | inr off ↦ rw off k
      ]

  catch_retried-Ended :
      (r : Request) (message : Option String) (p : P)
      → OneNotice p
      → Ended (catch_retried numbers copies_config r message p)
        × (length (catch_retried numbers copies_config r message p).toasts ≡ 1)
  unfolding catch_retried
  catch_retried-Ended r message p h =
      expired-Ended message (finish numbers copies_config (r.progress_started && copies_config) p)
        (finish-OneNotice (r.progress_started && copies_config) p h)

  on_error-retried :
      (i : ℕ) (r : Request) (status : Option ℕ) (message : Option String) (p : P)
      → r.retry ≡ true
      → on_error numbers copies_config i r status message p
        ≡ catch_retried numbers copies_config r message
            (reject numbers copies_config i r status message p)
  unfolding on_error
  on_error-retried i r status message p again = by_retry r.retry again
    where
      by_retry :
          (b : Bool)
          → b ≡ true
          → (if (elim status [ none ↦ false | some s ↦ eqb s 401 ])
                && (p.authenticated && (not b && not (is_auth_entry_request r.url)))
              then record (change numbers copies_config i
                  (λ q. record q { retry = true; phase = waiting })
                  p) { refreshing = true }
              else if b
              then catch_retried numbers copies_config r message
                  (reject numbers copies_config i r status message p)
              else reject numbers copies_config i r status message p)
            ≡ catch_retried numbers copies_config r message
                (reject numbers copies_config i r status message p)
      by_retry b e = ground (arith, e)

  on_error-OneNotice :
      (i : ℕ) (r : Request) (status : Option ℕ) (message : Option String) (p : P)
      → OneNotice p
      → OneNotice (on_error numbers copies_config i r status message p)
  unfolding on_error
  on_error-OneNotice i r status message p h =
      elim (Bool-cases (needs_refresh numbers copies_config r status p)) [
        | inl e ↦ rw e h
        | inr e ↦ rw e (chosen r.retry)
      ]
    where
      chosen :
          (b : Bool)
          → OneNotice (
              if b
              then catch_retried numbers copies_config r message
                  (reject numbers copies_config i r status message p)
              else reject numbers copies_config i r status message p)
      chosen true = inr (
          catch_retried-Ended r message (reject numbers copies_config i r status message p)
            (reject-OneNotice i r status message p h))
      chosen false = reject-OneNotice i r status message p h

  expire_waiting-OneNotice :
      (message : Option String) (rs : List Request) (p : P)
      → OneNotice p
      → OneNotice (expire_waiting numbers copies_config message rs p)
  unfolding expire_waiting
  expire_waiting-OneNotice message [] p h = h
  expire_waiting-OneNotice message (r ∷ rs) p h =
      expire_waiting-OneNotice message rs _ (chosen (is_waiting r))
    where
      chosen :
          (b : Bool)
          → OneNotice (
              if b
              then handle_session_expired numbers copies_config message
                  (finish numbers copies_config r.progress_started p)
              else p)
      chosen true = inr (expired-Ended message _ (finish-OneNotice r.progress_started p h))
      chosen false = h

  Answer-OneNotice : {p q : P} → Answer numbers copies_config p q → OneNotice p → OneNotice q
  unfolding on_response on_refreshed on_refresh_failed
  Answer-OneNotice {p = p} (responded i r at out) h =
      finish-OneNotice r.progress_started (change numbers copies_config i settle p) h
  Answer-OneNotice {p = p} (failed i r status message at out) h =
      on_error-OneNotice i r status message p h
  Answer-OneNotice (refreshed out) h = h
  Answer-OneNotice {p = p} (refresh_failed message out) h =
      expire_waiting-OneNotice message p.requests _ h

  -- In every state that a page of a session reaches, the session goes on and nothing was shown, or it
  -- has ended, its tabs are closed, and exactly one notice was shown, however many requests failed.
  pub Reaches-OneNotice :
      (tabs : TabsState) {p : P}
      → Reaches numbers copies_config (opened numbers copies_config tabs) p
      → OneNotice p
  unfolding request
  Reaches-OneNotice tabs here = inl (refl, refl, refl)
  Reaches-OneNotice tabs (requested url r) = Reaches-OneNotice tabs r
  Reaches-OneNotice tabs (answered r a) = Answer-OneNotice a (Reaches-OneNotice tabs r)

  -- A request that is repeated after a refresh and then fails ends the session, whatever the failure
  -- is: another status than 401, or no answer at all.
  pub retried_failure-Ended :
      (tabs : TabsState) (p : P)
      → Reaches numbers copies_config (opened numbers copies_config tabs) p
      → (i : ℕ) (r : Request) (status : Option ℕ) (message : Option String)
      → get_elem? p.requests i ≡ some r
      → r.retry ≡ true
      → Ended (on_error numbers copies_config i r status message p)
  retried_failure-Ended tabs p reached i r status message at again =
      subst Ended (sym (on_error-retried i r status message p again))
        (catch_retried-Ended r message (reject numbers copies_config i r status message p)
          (reject-OneNotice i r status message p (Reaches-OneNotice tabs reached))).0
