-- ===== src/Notifications/Status.antt =====
-- The life of an announcement, in apps/api/src/modules/notification/notification.service.ts: a draft
-- is published, what is published is revoked, and what is revoked stays as it is.
use zhuo_stack.Prelude.{
  subst, ◌≡◌, refl, sym, ap, ◌∙◌, ◌≢◌, inl, inr, Bool, true, false, not, Option, none, some, List,
  map, String, arith, ◌==◌, eq_iff, if◌then◌else◌, In, In-map, In-map_inverse, Bool-cases,
  Option-cases, text_cases,
}
use zhuo_stack.Prelude.Keyed.{Distinct, Distinct-map, find, find_of_get}
use zhuo_stack.Prelude.Action.{
  Action, Error, Result, ok, err, pure, throw_if, or_throw, not_found, bad_request, ◌>>=◌, ◌>>◌,
  Keeps, >>=-Keeps, >>=-Keeps_from, throw_if-stop, throw_if-pass, >>=-cong,
}
use zhuo_stack.Database.Client.{RedisClient}
use zhuo_stack.Database.Table.{Table}
use zhuo_stack.Guards.{text_is}
use zhuo_stack.Notifications.{
  Notification, ReadRow, UnreadCount, UpdateAnnouncementDto, CurrentUser, SseEvent, is_announcement,
  on_cache, hand_over, clear_unread_cache, find_notification, find_announcement, change_rows,
  edited, with_status, broadcast, update_announcement, publish_announcement, revoke_announcement,
}
use zhuo_stack.Notifications.Ownership.{notification_id, W, rows_of}

-- What editing, publishing and revoking may do to a row.
pub data Allowed : Notification → Notification → Type 0 where
  kept : {n m : Notification} → n ≡ m → Allowed n m
  edits : {n m : Notification} → n.status ≢ some "revoked" → m.status ≡ n.status → Allowed n m
  publishes :
      {n m : Notification}
      → n.status ≡ some "draft"
      → m.status ≡ some "published"
      → m.content ≡ n.content
      → Allowed n m
  revokes :
      {n m : Notification}
      → n.status ≡ some "published"
      → m.status ≡ some "revoked"
      → m.content ≡ n.content
      → Allowed n m

-- The rows of the two lists correspond by id, every one to what an allowed change makes of it, and
-- the ids of the new list are distinct.
abbrev pub Follows : List Notification → List Notification → Type 0
Follows before after =
    Distinct notification_id after
    × ((m : Notification)
        → In m after
        → (n : Notification) × In n before × (n.id ≡ m.id) × Allowed n m)
    × ((n : Notification)
        → In n before
        → (m : Notification) × In m after × (n.id ≡ m.id) × Allowed n m)

Follows-same : (rows : List Notification) → Distinct notification_id rows → Follows rows rows
Follows-same rows d = (d, λ m at. (m, at, refl, kept refl), λ n at. (n, at, refl, kept refl))

Follows-change :
    (id : String) (f : Notification → Notification) (rows : List Notification) (n : Notification)
    → Distinct notification_id rows
    → find notification_id id rows ≡ some n
    → ((m : Notification) → (f m).id ≡ m.id)
    → Allowed n (f n)
    → Follows rows (map (λ r. if r.id == id then f r else r) rows)
Follows-change id f rows n d e same a = (
  Distinct-map notification_id g rows keeps d,
  back,
  λ x here. let (p, b) = changed x (g x) here refl in (g x, In-map g rows x here, p, b),
)
  where
    g : Notification → Notification
    g r = if r.id == id then f r else r

    keeps : (r : Notification) → (g r).id ≡ r.id
    keeps r = elim (Bool-cases (r.id == id)) [ inl b ↦ rw b (same r) | inr b ↦ rw b refl ]

    changed : (x m : Notification) → In x rows → g x ≡ m → (x.id ≡ m.id) × Allowed x m
    changed x m (i, at) q = elim (text_cases x.id id) [
      | inr (b, _) ↦ let r : x ≡ m = (rw b at q) in (ap notification_id r, kept r)
      | inl (b, p) ↦
          let found : find notification_id id rows ≡ some x =
            subst (λ k. find notification_id k rows ≡ some x) p
              (find_of_get notification_id rows i x d at) in
          let it : n ≡ x = ground arith in
          let r : f x ≡ m = (rw b at q) in
          (
            sym (same x) ∙ ap notification_id r,
            subst (λ y. Allowed x y) r (subst (λ y. Allowed y (f y)) it a),
          )
    ]

    back :
        (m : Notification)
        → In m (map g rows)
        → (x : Notification) × In x rows × (x.id ≡ m.id) × Allowed x m
    back m at =
        let (x, here, q) = In-map_inverse g rows m at in
        let (p, b) = changed x m here q in (x, here, p, b)

text_is-some : (o : Option String) (s : String) → text_is o s ≡ true → o ≡ some s
text_is-some none s h = absurd (ground arith)
text_is-some (some t) s h = ground (arith, eq_iff t s)

not_revoked : (o : Option String) → text_is o "revoked" ≡ false → o ≢ some "revoked"
not_revoked none h e = ground arith
not_revoked (some t) h e = ground (arith, eq_iff t "revoked")

module _ (rc : RedisClient UnreadCount) (notices : Table Notification) (reads : Table ReadRow) where
  abbrev World : Type 0
  World = W rc notices reads

  abbrev rows : World → List Notification
  rows w = rows_of rc notices reads w

  announcement_then :
      {A : Type 0} (id : String) (k : Notification → Action World A) (w : World)
      → (find_announcement rc notices reads id >>= k) w
        ≡ (elim (find notification_id id (rows w)) as (λ _. Result A × World) [
          | none ↦ (err (not_found "公告不存在"), w)
          | some n ↦ if is_announcement n then k n w else (err (not_found "公告不存在"), w)
        ])
  unfolding find_announcement find_notification ◌>>=◌
  announcement_then {A} id k w =
      >>=-cong (find_announcement rc notices reads id) (check (find notification_id id (rows w))) k
        w
        (>>=-cong (find_notification rc notices reads id) (pure (find notification_id id (rows w)))
          check w
          (ap (λ (o : Option Notification). found_now o)
            (notices.find_first-rows (λ n. n.id == id) w.notifications)))
      ∙ answer (find notification_id id (rows w))
    where
      found_now : Option Notification → Result (Option Notification) × World
      found_now o = (ok o, w)

      check : Option Notification → Action World Notification
      check o = or_throw o (not_found "公告不存在") >>= λ n.
          throw_if (not (is_announcement n)) (not_found "公告不存在") >> pure n

      answer :
          (o : Option Notification)
          → ◌≡◌ {A = Result A × World} ((check o >>= k) w) (elim o as (λ _. Result A × World) [
            | none ↦ (err (not_found "公告不存在"), w)
            | some n ↦ if is_announcement n then k n w else (err (not_found "公告不存在"), w)
          ])
      answer none = refl
      answer (some n) = by_type (is_announcement n)
        where
          by_type :
              (b : Bool)
              → ◌≡◌ {A = Result A × World}
                  (((throw_if (not b) (not_found "公告不存在") >> pure n) >>= k) w)
                  (if b then k n w else (err (not_found "公告不存在"), w))
          by_type true = refl
          by_type false = refl

  abbrev Follow : List Notification → World → Type 0
  Follow before w = Follows before (rows w)

  clear_unread_cache-Keeps :
      (before : List Notification) → Keeps (Follow before) (clear_unread_cache rc notices reads)
  unfolding clear_unread_cache on_cache
  clear_unread_cache-Keeps before w h = h

  hand_over-Keeps :
      (before : List Notification) (e : SseEvent)
      → Keeps (Follow before) (hand_over rc notices reads e)
  unfolding hand_over
  hand_over-Keeps before e w h = h

  broadcast-Keeps :
      (before : List Notification) (n : Notification)
      → Keeps (Follow before) (broadcast rc notices reads n)
  unfolding broadcast
  broadcast-Keeps before n =
      >>=-Keeps (Follow before) (hand_over rc notices reads _) _ (hand_over-Keeps before _)
        λ _. clear_unread_cache-Keeps before

  -- The common shape of the three actions: a check on the found announcement, a change of its row, and
  -- steps that leave the table alone.
  guarded_change :
      {A : Type 0} (id : String) (bad : Notification → Bool) (e : Error)
      (f : Notification → Notification) (rest : Notification → Action World A) (w : World)
      → Distinct notification_id (rows w)
      → ((m : Notification) → (f m).id ≡ m.id)
      → ((n : Notification) → bad n ≡ false → Allowed n (f n))
      → ((n : Notification) → Keeps (Follow (rows w)) (rest n))
      → Follow
          (rows w)
          ((find_announcement rc notices reads id >>= λ n.
              throw_if (bad n) e >> (change_rows rc notices reads (λ m. m.id == id) f >> rest n))
            w).1
  guarded_change {A} id bad e f rest w d same allowed keeps =
      elim (Option-cases (find notification_id id (rows w))) [
        | inl q ↦ rw (announcement_then id after w, q) (Follows-same (rows w) d)
        | inr (n, q) ↦ rw (announcement_then id after w, q) (found n q)
      ]
    where
      after : Notification → Action World A
      after n = throw_if (bad n) e >> (change_rows rc notices reads (λ m. m.id == id) f >> rest n)

      found :
          (n : Notification)
          → find notification_id id (rows w) ≡ some n
          → Follow
              (rows w)
              (let next : Result A × World =
                  if is_announcement n then after n w else (err (not_found "公告不存在"), w) in
                next).1
      found n q = elim (Bool-cases (is_announcement n)) [
        | inr other ↦ rw other (Follows-same (rows w) d)
        | inl on ↦ rw on (elim (Bool-cases (bad n)) [
          | inl b ↦
              rw
                (throw_if-stop (bad n) e
                  (change_rows rc notices reads (λ m. m.id == id) f >> rest n) w b)
                (Follows-same (rows w) d)
          | inr b ↦
              rw
                (throw_if-pass (bad n) e
                  (change_rows rc notices reads (λ m. m.id == id) f >> rest n) w b)
                (>>=-Keeps_from (Follow (rows w)) (change_rows rc notices reads (λ m. m.id == id) f)
                  _ w
                  (rw (notices.rows-update_many (λ m. m.id == id) f w.notifications)
                    (Follows-change id f (rows w) n d q same (allowed n b)))
                  λ _. keeps n)
        ])
      ]

  -- A request to edit, to publish or to revoke an announcement.
  pub data Act : Type 0 where
    edit : String → UpdateAnnouncementDto → CurrentUser → Act
    publish : String → CurrentUser → Act
    revoke : String → CurrentUser → Act

  abbrev pub done : {A : Type 0} → Action World A → World → World
  done m w = (m w).1

  abbrev pub act : Act → World → World
  act (edit id dto by) = done (update_announcement rc notices reads id dto by)
  act (publish id by) = done (publish_announcement rc notices reads id by)
  act (revoke id by) = done (revoke_announcement rc notices reads id by)

  -- Whatever editing, publishing or revoking an announcement ends in, where the ids were distinct:
  -- they are distinct afterwards, and the rows before and after correspond by id, in both
  -- directions. A row is unchanged, or edited while it was not revoked and with its status, or from
  -- draft to published, or from published to revoked, where its content stays. So no row appears or
  -- vanishes, and what is revoked stays as it is.
  pub act-Follows :
      (a : Act) (w : World) → Distinct notification_id (rows w) → Follows (rows w) (rows (act a w))
  unfolding update_announcement publish_announcement revoke_announcement edited with_status
  act-Follows (edit id dto by) w d =
      guarded_change id (λ n. text_is n.status "revoked") (bad_request "已撤回的公告不可编辑")
        (edited dto by.id) _ w d (λ m. refl) (λ n b. edits (not_revoked n.status b) refl)
        (λ n v h. h)
  act-Follows (publish id by) w d =
      guarded_change id (λ n. not (text_is n.status "draft")) (bad_request "仅草稿公告可发布")
        (with_status "published" by.id) _ w d (λ m. refl)
        (λ n b. publishes (text_is-some n.status "draft" (ground arith)) refl refl)
        (λ n.
          >>=-Keeps (Follow (rows w)) (broadcast rc notices reads _) _ (broadcast-Keeps (rows w) _)
            λ _ v h. h)
  act-Follows (revoke id by) w d =
      guarded_change id (λ n. not (text_is n.status "published")) (bad_request "仅已发布的公告可撤回")
        (with_status "revoked" by.id) _ w d (λ m. refl)
        (λ n b. revokes (text_is-some n.status "published" (ground arith)) refl refl)
        (λ n.
          >>=-Keeps (Follow (rows w)) (hand_over rc notices reads _) _ (hand_over-Keeps (rows w) _)
            λ _.
              >>=-Keeps (Follow (rows w)) (clear_unread_cache rc notices reads) _
                (clear_unread_cache-Keeps (rows w)) λ _ v h. h)
