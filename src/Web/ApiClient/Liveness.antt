-- ===== src/Web/ApiClient/Liveness.antt =====
-- Every request of apps/web/src/lib/api-client.ts settles.
use zhuo_stack.Prelude.{
  ℕ, suc, ◌+◌, ◌*◌, length, ◌-◌, ◌≤◌, ◌<◌, ◌≡◌, refl, sym, ◌∙◌, subst, ◌⊎◌, inl, inr, Bool, true,
  false, Option, some, List, [], ◌∷◌, ◌++◌, map, String, arith, if◌then◌else◌, get_elem?, All,
  Bool-cases,
}
use zhuo_stack.Web.Progress.{Numbers}
use zhuo_stack.Web.Tabs.{TabsState}
use zhuo_stack.Web.ApiClient.{
  Phase, sent, waiting, settled, Request, is_waiting, opened, handle_session_expired, request,
  finish, give_up, expire_waiting, on_refresh_failed, Answer, responded, failed, refreshed,
  refresh_failed, Reaches, here, requested, answered, Answers, none_yet, one_more,
}
use zhuo_stack.Web.ApiClient.Weights.{
  weight, weight-append, weight-get, weight-map-le, weight-map, All-append_one, All-map, All-imp,
}
use zhuo_stack.Web.ApiClient.Settling.{
  remaining, unsettled, waits, IsSound, P, Safe, left, Answering, start-active, expired-core,
  finish-core, on_response-Answering, on_error-Answering, on_refreshed-Answering,
}

module _ (numbers : Numbers) (copies_config : Bool) where
  -- The same requests, and fewer on the bar.
  abbrev TakenOff : P numbers copies_config → P numbers copies_config → ℕ → Type 0
  TakenOff p q n =
      (q.requests ≡ p.requests)
      × (q.refreshing ≡ p.refreshing)
      × (q.progress.active_requests ≡ p.progress.active_requests - n)

  -- The `catch` of every request that waits: each is taken off the bar.
  expire_waiting-core :
      (message : Option String) (rs : List Request) (p : P numbers copies_config)
      → All IsSound rs
      → TakenOff p (expire_waiting numbers copies_config message rs p) (weight waits rs)
  unfolding expire_waiting
  expire_waiting-core message [] p all = (refl, refl, omega arith)
  expire_waiting-core message (r ∷ rs) p (s, all) = elim (Bool-cases (is_waiting r)) [
    | inr off ↦
        (let (e, f, g) = expire_waiting-core message rs p all in
          chosen false off (e, f, omega (arith, g)))
    | inl on ↦
        let started : r.progress_started ≡ true = ground arith in
        let p1 = finish numbers copies_config r.progress_started p in
        let p2 = handle_session_expired numbers copies_config message p1 in
        let (a, b, c) = finish-core numbers copies_config r.progress_started p in
        let (x, y, z) = expired-core numbers copies_config message p1 in
        let (e, f, g) = expire_waiting-core message rs p2 all in
        let one : p2.progress.active_requests ≡ p.progress.active_requests - 1 =
          ground (arith, z, c, started) in
        chosen true on (e ∙ x ∙ a, f ∙ y ∙ b, omega (arith, g, one))
  ]
    where
      chosen :
          (b : Bool)
          → is_waiting r ≡ b
          → TakenOff p
              (expire_waiting numbers copies_config message rs (
                if b
                then handle_session_expired numbers copies_config message
                    (finish numbers copies_config r.progress_started p)
                else p))
              ((if b then 1 else 0) + weight waits rs)
          → TakenOff p
              (expire_waiting numbers copies_config message (r ∷ rs) p)
              (weight waits (r ∷ rs))
      chosen b e h =
          subst
            (λ c.
              TakenOff p
                (expire_waiting numbers copies_config message rs (
                  if c
                  then handle_session_expired numbers copies_config message
                      (finish numbers copies_config r.progress_started p)
                  else p))
                ((if c then 1 else 0) + weight waits rs))
            (sym e) h

  on_refresh_failed-Answering :
      (message : Option String) (p : P numbers copies_config)
      → p.refreshing ≡ true
      → Safe numbers copies_config p
      → Answering numbers copies_config p (on_refresh_failed numbers copies_config message p)
  unfolding on_refresh_failed
  on_refresh_failed-Answering message p out (sound_all, shared, few) =
      let (e, f, g) =
        expire_waiting-core message p.requests
          (record p { refreshing = false; requests = map give_up p.requests }) sound_all in
      let u = weight-map unsettled waits unsettled give_up p.requests unsettled_less in
      let w = weight-map waits waits waits give_up p.requests waits_none in
      let m =
        weight-map-le remaining waits remaining give_up p.requests
          (All-imp IsSound _ p.requests less sound_all) in
      let waiting_some : 0 < weight waits p.requests = ground (arith, shared) in
      (
        (
          rw e (All-map IsSound give_up p.requests gives_up_sound sound_all),
          (let none_left : weight waits (map give_up p.requests) ≡ 0 = omega (arith, w) in
              f ∙ rw (e, none_left) refl),
          rw e (omega (arith, few, u, g)),
        ),
        rw e (omega (arith, m, waiting_some)),
      )
    where
      unsettled_less : (r : Request) → unsettled (give_up r) + waits r ≡ unsettled r
      unsettled_less r = ground arith

      waits_none : (r : Request) → waits (give_up r) + waits r ≡ waits r
      waits_none r = ground arith

      less : (r : Request) → IsSound r → remaining (give_up r) + waits r ≤ remaining r
      less r s = ground arith

      gives_up_sound : (r : Request) → IsSound r → IsSound (give_up r)
      gives_up_sound r s = ground arith

  Answer-Answering :
      (p q : P numbers copies_config)
      → Answer numbers copies_config p q
      → Safe numbers copies_config p
      → Answering numbers copies_config p q
  Answer-Answering p q a safe = of_answer a
    where
      of_answer :
          {q : P numbers copies_config}
          → Answer numbers copies_config p q
          → Answering numbers copies_config p q
      of_answer (responded i r at out) =
          on_response-Answering numbers copies_config i r p at out safe
      of_answer (failed i r status message at out) =
          on_error-Answering numbers copies_config i r status message p at out safe
      of_answer (refreshed out) = on_refreshed-Answering numbers copies_config p out safe
      of_answer (refresh_failed message out) = on_refresh_failed-Answering message p out safe

  request-Safe :
      (url : String) (p : P numbers copies_config)
      → Safe numbers copies_config p
      → Safe numbers copies_config (request numbers copies_config url p)
  unfolding request
  request-Safe url p (sound_all, shared, few) =
      let new : Request = record {
        url = url;
        retry = false;
        progress_started = true;
        phase = sent;
      } in
      let u = weight-append unsettled p.requests new in
      let w = weight-append waits p.requests new in
      let same : weight waits (p.requests ++ new ∷ []) ≡ weight waits p.requests =
        omega (arith, w) in
      let s = start-active numbers copies_config p.progress in
      (
        All-append_one IsSound p.requests new sound_all refl,
        rw same shared,
        omega (arith, few, u, s),
      )

  -- In every state that a page reaches: the refresh is out just while a request waits for it, each
  -- request that waits has its one repetition marked, and the bar counts no more requests than are
  -- unsettled.
  pub Reaches-Safe :
      (tabs : TabsState) {q : P numbers copies_config}
      → Reaches numbers copies_config (opened numbers copies_config tabs) q
      → Safe numbers copies_config q
  Reaches-Safe tabs here = (tt, refl, omega arith)
  Reaches-Safe tabs (requested {q} url r) = request-Safe url q (Reaches-Safe tabs r)
  Reaches-Safe tabs (answered {q} {r} a b) = (Answer-Answering q r b (Reaches-Safe tabs a)).0

  -- A request that is not settled.
  find_unsettled :
      (rs : List Request)
      → (weight unsettled rs ≡ 0)
        ⊎ ((i : ℕ) × (r : Request) × (get_elem? rs i ≡ some r)
            × ((r.phase ≡ sent) ⊎ (r.phase ≡ waiting)))
  find_unsettled [] = inl refl
  find_unsettled (r ∷ rs) = elim (phases r) [
    | inl open_ ↦ inr (0, r, refl, open_)
    | inr done_ ↦ elim (find_unsettled rs) [
      | inl none_ ↦ inl (omega (arith, none_, done_))
      | inr (i, s, at, open_) ↦ inr (suc i, s, at, open_)
    ]
  ]
    where
      phases : (r : Request) → ((r.phase ≡ sent) ⊎ (r.phase ≡ waiting)) ⊎ (unsettled r ≡ 0)
      phases r = by_phase r.phase refl
        where
          by_phase :
              (f : Phase)
              → r.phase ≡ f
              → ((r.phase ≡ sent) ⊎ (r.phase ≡ waiting)) ⊎ (unsettled r ≡ 0)
          by_phase sent e = inl (inl e)
          by_phase waiting e = inl (inr e)
          by_phase settled e = inr (rw e refl)

  -- While a request is not settled something is out that can be answered.
  answerable :
      (p : P numbers copies_config)
      → Safe numbers copies_config p
      → (weight unsettled p.requests ≡ 0)
        ⊎ ((q : P numbers copies_config) × Answer numbers copies_config p q)
  answerable p (sound_all, shared, few) = elim (find_unsettled p.requests) [
    | inl none_ ↦ inl none_
    | inr (i, r, at, inl out) ↦ inr (_, responded i r at out)
    | inr (i, r, at, inr waits_) ↦
        let here_one : waits r ≡ 1 = rw waits_ refl in
        let some_wait : waits r ≤ weight waits p.requests = weight-get waits i p.requests r at in
        inr (_, refreshed (ground (arith, shared, here_one, some_wait)))
  ]

  left_bound : (rs : List Request) → weight remaining rs ≤ 3 * length rs
  left_bound [] = omega arith
  left_bound (r ∷ rs) =
      let rest = left_bound rs in
      let one : remaining r ≤ 3 = ground arith in omega (arith, rest, one)

  Answers-Safe :
      {p : P numbers copies_config} {n : ℕ} {q : P numbers copies_config}
      → Safe numbers copies_config p
      → Answers numbers copies_config p n q
      → Safe numbers copies_config q
        × (n + left numbers copies_config q ≤ left numbers copies_config p)
  Answers-Safe safe none_yet = (safe, omega arith)
  Answers-Safe safe (one_more {q = q} {r = r} run a) =
      let (s, few) = Answers-Safe safe run in
      let (t, less) = Answer-Answering q r a s in (t, omega (arith, few, less))

  -- Every request settles: after a page has made its requests, at most three answers for each of them
  -- arrive; while one of them is not settled, the network owes an answer, to a request that is out or
  -- to the refresh; and once none is owed, every request is settled and the bar counts none.
  pub Answers-settle :
      (tabs : TabsState) (n : ℕ) (p q : P numbers copies_config)
      → Reaches numbers copies_config (opened numbers copies_config tabs) p
      → Answers numbers copies_config p n q
      → (n ≤ 3 * length p.requests)
        × (((weight unsettled q.requests ≡ 0) × (q.progress.active_requests ≡ 0))
            ⊎ ((r : P numbers copies_config) × Answer numbers copies_config q r))
  Answers-settle tabs n p q reached run =
      let (safe, few) = Answers-Safe (Reaches-Safe tabs reached) run in
      let (_, _, counted) = safe in
      (
        (let three = left_bound p.requests in omega (arith, few, three)),
        elim (answerable q safe) [
          | inl none_ ↦ inl (none_, omega (arith, counted, none_))
          | inr more ↦ inr more
        ],
      )
