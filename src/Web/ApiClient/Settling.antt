-- ===== src/Web/ApiClient/Settling.antt =====
-- What an answer does to the requests of apps/web/src/lib/api-client.ts.
use zhuo_stack.Prelude.{
  ℕ, ◌+◌, ◌-◌, ◌≤◌, ◌<◌, ◌≡◌, refl, sym, ◌∙◌, subst, inl, inr, Bool, true, false, ◌&&◌, Option,
  none, some, List, [], ◌∷◌, map, String, arith, if◌then◌else◌, ltb, eqb, get_elem?, modify, All,
  Bool-cases,
}
use zhuo_stack.Web.Progress.{Numbers, ProgressState, start, done}
use zhuo_stack.Web.ApiClient.{
  sent, waiting, settled, Request, is_waiting, Page, handle_session_expired, finish, settle,
  on_response, reject, catch_retried, needs_refresh, on_error, resend, on_refreshed,
}
use zhuo_stack.Web.ApiClient.Weights.{
  weight, weight-modify, weight-map-le, weight-map, All-get, All-modify, All-map, All-imp,
}

-- The answers that a request may still take.
abbrev pub remaining : Request → ℕ
remaining r = elim r.phase [ settled ↦ 0 | waiting ↦ 2 | sent ↦ (if r.retry then 1 else 3) ]

abbrev pub unsettled : Request → ℕ
unsettled r = elim r.phase [ settled ↦ 0 | _ ↦ 1 ]

abbrev pub waits : Request → ℕ
waits r = if is_waiting r then 1 else 0

-- A request that is not settled has started the bar, and one that waits has its one repetition marked.
abbrev pub sound : Request → Bool
sound r = elim r.phase [
  | settled ↦ true
  | sent ↦ r.progress_started
  | waiting ↦ r.progress_started && r.retry
]

abbrev pub IsSound : Request → Type 0
IsSound r = sound r ≡ true

module _ (numbers : Numbers) (copies_config : Bool) where
  abbrev pub P : Type 0
  P = Page numbers copies_config

  -- The refresh is out just while a request waits for it, and the bar counts no more requests than
  -- are unsettled.
  abbrev pub IsSafe : List Request → Bool → ℕ → Type 0
  IsSafe rs refreshing active =
      All IsSound rs × (refreshing ≡ ltb 0 (weight waits rs)) × (active ≤ weight unsettled rs)

  abbrev pub Safe : P → Type 0
  Safe p = IsSafe p.requests p.refreshing p.progress.active_requests

  abbrev pub left : P → ℕ
  left p = weight remaining p.requests

  -- What the steps do to the requests, the refresh and the count.
  done-active :
      (s : ProgressState numbers) → (done numbers s).active_requests ≡ s.active_requests - 1
  unfolding done
  done-active s = ground arith

  pub start-active :
      (s : ProgressState numbers) → (start numbers s).active_requests ≡ s.active_requests + 1
  unfolding start
  start-active s = ground arith

  abbrev pub SameCore : P → P → Type 0
  SameCore p q =
      (p.requests ≡ q.requests)
      × (p.refreshing ≡ q.refreshing)
      × (p.progress.active_requests ≡ q.progress.active_requests)

  pub expired-core :
      (message : Option String) (p : P)
      → SameCore (handle_session_expired numbers copies_config message p) p
  unfolding handle_session_expired
  expired-core message p = elim (Bool-cases p.redirecting) [
    | inl e ↦ rw e (refl, refl, refl)
    | inr e ↦ rw e (refl, refl, refl)
  ]

  pub finish-core :
      (started : Bool) (p : P)
      → ((finish numbers copies_config started p).requests ≡ p.requests)
        × ((finish numbers copies_config started p).refreshing ≡ p.refreshing)
        × ((finish numbers copies_config started p).progress.active_requests
            ≡ p.progress.active_requests - (if started then 1 else 0))
  unfolding finish
  finish-core true p = (refl, refl, done-active p.progress)
  finish-core false p = (refl, refl, omega arith)

  -- A step that answers keeps a page safe, and leaves fewer answers.
  abbrev pub Answering : P → P → Type 0
  Answering p q = Safe q × (left q < left p)

  settled_one :
      (i : ℕ) (r : Request) (p q : P)
      → get_elem? p.requests i ≡ some r
      → r.phase ≡ sent
      → Safe p
      → q.requests ≡ modify i settle p.requests
      → q.refreshing ≡ p.refreshing
      → q.progress.active_requests ≤ p.progress.active_requests - 1
      → Answering p q
  settled_one i r p q at out (sound_all, shared, few) e f le =
      let u = weight-modify unsettled i settle p.requests r at in
      let w = weight-modify waits i settle p.requests r at in
      let m = weight-modify remaining i settle p.requests r at in
      let one : unsettled r ≡ 1 = rw out refl in
      let none_waits : waits r ≡ 0 = rw out refl in
      let some_left : 1 ≤ remaining r = rw out (ground arith) in
      let same_waits : weight waits (modify i settle p.requests) ≡ weight waits p.requests =
        omega (arith, w, none_waits) in
      (
        (
          rw e (All-modify IsSound i settle p.requests r at refl sound_all),
          f ∙ rw (e, same_waits) shared,
          rw e (omega (arith, le, few, u, one)),
        ),
        rw e (omega (arith, m, some_left)),
      )

  started_of : (r : Request) → r.phase ≡ sent → IsSound r → r.progress_started ≡ true
  started_of r out s = rw out at s

  reject-core :
      (i : ℕ) (r : Request) (status : Option ℕ) (message : Option String) (p : P)
      → let q = reject numbers copies_config i r status message p in
        (q.requests ≡ modify i settle p.requests)
        × (q.refreshing ≡ p.refreshing)
        × (q.progress.active_requests
            ≡ p.progress.active_requests - (if r.progress_started then 1 else 0))
  unfolding reject
  reject-core i r status message p =
      let p1 : P = record p { requests = modify i settle p.requests } in
      let (a, b, c) = finish-core r.progress_started p1 in
      elim (Bool-cases ((elim status [ none ↦ false | some s ↦ eqb s 401 ]) && p.authenticated)) [
        | inl on ↦
            let (x, y, z) =
              expired-core message (finish numbers copies_config r.progress_started p1) in
            rw on (x ∙ a, y ∙ b, z ∙ c)
        | inr off ↦ rw off (a, b, c)
      ]

  catch_retried-core :
      (r : Request) (message : Option String) (p : P)
      → let q = catch_retried numbers copies_config r message p in
        (q.requests ≡ p.requests)
        × (q.refreshing ≡ p.refreshing)
        × (q.progress.active_requests ≤ p.progress.active_requests)
  unfolding catch_retried
  catch_retried-core r message p =
      let (a, b, c) = finish-core (r.progress_started && copies_config) p in
      let (x, y, z) =
        expired-core message
          (finish numbers copies_config (r.progress_started && copies_config) p) in
      (x ∙ a, y ∙ b, omega (arith, z, c))

  wait_for :
      (i : ℕ) (r : Request) (p : P)
      → get_elem? p.requests i ≡ some r
      → r.phase ≡ sent
      → r.retry ≡ false
      → Safe p
      → Answering p (record p {
        requests = modify i (λ q. record q { retry = true; phase = waiting }) p.requests;
        refreshing = true;
      })
  wait_for i r p at out first (sound_all, shared, few) =
      let g = λ (q : Request). record q { retry = true; phase = waiting } in
      let u = weight-modify unsettled i g p.requests r at in
      let w = weight-modify waits i g p.requests r at in
      let m = weight-modify remaining i g p.requests r at in
      let one : unsettled r ≡ 1 = rw out refl in
      let none_waits : waits r ≡ 0 = rw out refl in
      let three : remaining r ≡ 3 = rw (out, first) refl in
      let started = started_of r out (All-get IsSound i p.requests r sound_all at) in
      (
        (
          All-modify IsSound i g p.requests r at (rw started refl) sound_all,
          (let some_wait : 0 < weight waits (modify i g p.requests) =
                omega (arith, w, none_waits) in
              ground arith),
          omega (arith, few, u, one),
        ),
        omega (arith, m, three),
      )

  pub on_response-Answering :
      (i : ℕ) (r : Request) (p : P)
      → get_elem? p.requests i ≡ some r
      → r.phase ≡ sent
      → Safe p
      → Answering p (on_response numbers copies_config i r p)
  unfolding on_response
  on_response-Answering i r p at out safe =
      let started = started_of r out (All-get IsSound i p.requests r safe.0 at) in
      let p1 : P = record p { requests = modify i settle p.requests } in
      let (a, b, c) = finish-core r.progress_started p1 in
      settled_one i r p (finish numbers copies_config r.progress_started p1) at out safe a b
        (ground (arith, c, started))

  pub on_error-Answering :
      (i : ℕ) (r : Request) (status : Option ℕ) (message : Option String) (p : P)
      → get_elem? p.requests i ≡ some r
      → r.phase ≡ sent
      → Safe p
      → Answering p (on_error numbers copies_config i r status message p)
  unfolding on_error
  on_error-Answering i r status message p at out safe =
      elim (Bool-cases (needs_refresh numbers copies_config r status p)) [
        | inl yes_ ↦ rw yes_ (wait_for i r p at out (ground arith) safe)
        | inr no_ ↦
            let started = started_of r out (All-get IsSound i p.requests r safe.0 at) in
            let q = reject numbers copies_config i r status message p in
            let (a, b, c) = reject-core i r status message p in
            let less : q.progress.active_requests ≤ p.progress.active_requests - 1 =
              ground (arith, c, started) in
            let caught = catch_retried numbers copies_config r message q in
            let end = λ (b : Bool) (e : r.retry ≡ b) (h : Answering p (if b then caught else q)).
              subst (λ c. Answering p (if c then caught else q)) (sym e) h in
            rw no_ (elim (Bool-cases r.retry) [
              | inl again ↦
                  let (x, y, z) = catch_retried-core r message q in
                  end true again
                    (settled_one i r p caught at out safe (x ∙ a) (y ∙ b) (omega (arith, z, less)))
              | inr first ↦ end false first (settled_one i r p q at out safe a b less)
            ])
      ]

  pub on_refreshed-Answering :
      (p : P) → p.refreshing ≡ true → Safe p → Answering p (on_refreshed numbers copies_config p)
  unfolding on_refreshed
  on_refreshed-Answering p out (sound_all, shared, few) =
      let u = weight-map unsettled (λ _. 0) unsettled resend p.requests unsettled_same in
      let zeros = weight_zero p.requests in
      let w = weight-map waits waits waits resend p.requests waits_none in
      let m =
        weight-map-le remaining waits remaining resend p.requests
          (All-imp IsSound _ p.requests less sound_all) in
      let waiting_some : 0 < weight waits p.requests = ground (arith, shared) in
      (
        (
          All-map IsSound resend p.requests resend_sound sound_all,
          (let none_left : weight waits (map resend p.requests) ≡ 0 = omega (arith, w) in
              rw none_left refl),
          omega (arith, few, u, zeros),
        ),
        omega (arith, m, waiting_some),
      )
    where
      unsettled_same : (r : Request) → unsettled (resend r) + 0 ≡ unsettled r
      unsettled_same r = ground arith

      waits_none : (r : Request) → waits (resend r) + waits r ≡ waits r
      waits_none r = ground arith

      less : (r : Request) → IsSound r → remaining (resend r) + waits r ≤ remaining r
      less r s = ground arith

      resend_sound : (r : Request) → IsSound r → IsSound (resend r)
      resend_sound r s = ground arith

      weight_zero : (rs : List Request) → weight (λ _. 0) rs ≡ 0
      weight_zero [] = refl
      weight_zero (r ∷ rs) = omega (arith, weight_zero rs)
