-- ===== src/Notifications/Ownership.antt =====
-- A user acts on no other user's messages, in
-- apps/api/src/modules/notification/notification.service.ts.
use zhuo_stack.Prelude.{
  subst, ◌≡◌, refl, inl, inr, Bool, true, false, not, Option, none, some, List, map, String, arith,
  ◌==◌, if◌then◌else◌, filter, In, In-map, In-filter_keep, Bool-cases, Option-cases, text_cases,
}
use zhuo_stack.Prelude.Keyed.{Distinct, find, find_of_get}
use zhuo_stack.Prelude.Action.{
  Action, Error, Result, err, pure, or_throw, not_found, ◌>>=◌, ◌>>◌, Keeps, >>=-Keeps,
  >>=-Keeps_from,
}
use zhuo_stack.Database.Client.{RedisClient}
use zhuo_stack.Database.Table.{Table}
use zhuo_stack.Guards.{text_is}
use zhuo_stack.Notifications.{
  Notification, ReadRow, UnreadCount, NotificationWorld, is_announcement, on_cache,
  invalidate_unread_cache, find_notification, marked_read, upsert_read, mark_found, remove_found,
  mark_as_read, remove_by_user,
}

abbrev pub notification_id : Notification → String
notification_id n = n.id

-- Every message of a user other than `u` in the one list stands in the other as it was.
abbrev pub SparesOthers : String → List Notification → List Notification → Type 0
SparesOthers u before after =
    (n : Notification)
    → In n before
    → is_announcement n ≡ false
    → text_is n.user_id u ≡ false
    → In n after

other_id :
    (u id : String) (rows : List Notification) (mine n : Notification)
    → Distinct notification_id rows
    → find notification_id id rows ≡ some mine
    → text_is mine.user_id u ≡ true
    → In n rows
    → text_is n.user_id u ≡ false
    → (n.id == id) ≡ false
other_id u id rows mine n d e own (i, at) other = elim (text_cases n.id id) [
  | inr (b, _) ↦ b
  | inl (b, same) ↦
      let found : find notification_id id rows ≡ some n =
        subst (λ k. find notification_id k rows ≡ some n) same
          (find_of_get notification_id rows i n d at) in
      let it : mine ≡ n = ground arith in absurd (clash mine n it own other)
]
  where
    clash :
        (a b : Notification) → a ≡ b → text_is a.user_id u ≡ true → text_is b.user_id u ≡ false → ⊥
    clash a b p h k =
        let q : text_is b.user_id u ≡ true = subst (λ x. text_is x.user_id u ≡ true) p h in
        ground arith

module _ (rc : RedisClient UnreadCount) (notices : Table Notification) (reads : Table ReadRow) where
  abbrev pub W : Type 0
  W = NotificationWorld rc notices reads

  abbrev pub rows_of : W → List Notification
  rows_of w = notices.rows w.notifications

  abbrev Spares : String → List Notification → W → Type 0
  Spares u before w = SparesOthers u before (rows_of w)

  invalidate_unread_cache-Keeps :
      (P : List Notification → Type 0) (u : String)
      → Keeps (λ (w : W). P (rows_of w)) (invalidate_unread_cache rc notices reads u)
  unfolding invalidate_unread_cache on_cache
  invalidate_unread_cache-Keeps P u w h = h

  upsert_read-rows :
      (id u : String) (hidden : Bool) (f : ReadRow → ReadRow) (now : String) (w : W)
      → rows_of (upsert_read rc notices reads id u hidden f now w).1 ≡ rows_of w
  unfolding upsert_read
  upsert_read-rows id u hidden f now w = ground arith

  spared_change :
      (u id : String) (f : Notification → Notification) (rows : List Notification)
      (mine : Notification)
      → Distinct notification_id rows
      → find notification_id id rows ≡ some mine
      → text_is mine.user_id u ≡ true
      → SparesOthers u rows (map (λ r. if r.id == id then f r else r) rows)
  spared_change u id f rows mine d e own n at a other =
      let b = other_id u id rows mine n d e own at other in
      subst (λ x. In x (map (λ (r : Notification). if r.id == id then f r else r) rows)) (rw b refl)
        (In-map (λ (r : Notification). if r.id == id then f r else r) rows n at)

  spared_delete :
      (u id : String) (rows : List Notification) (mine : Notification)
      → Distinct notification_id rows
      → find notification_id id rows ≡ some mine
      → text_is mine.user_id u ≡ true
      → SparesOthers u rows (filter (λ r. not (r.id == id)) rows)
  spared_delete u id rows mine d e own n at a other =
      In-filter_keep (λ (r : Notification). not (r.id == id)) rows n at
        (rw (other_id u id rows mine n d e own at other) refl)

  -- What follows a lookup that throws where the notification is missing.
  pub found_then :
      {A : Type 0} (id : String) (e : Error) (k : Notification → Action W A) (w : W)
      → (find_notification rc notices reads id >>= λ found. or_throw found e >>= k) w
        ≡ (elim (find notification_id id (rows_of w)) as (λ _. Result A × W) [
          | none ↦ (err e, w)
          | some n ↦ k n w
        ])
  unfolding find_notification ◌>>=◌
  found_then {A} id e k w =
      rw (notices.find_first-rows (λ n. n.id == id) w.notifications)
        (answer (find notification_id id (rows_of w)))
    where
      answer :
          (o : Option Notification)
          → ◌≡◌ {A = Result A × W}
              ((or_throw o e >>= k) w)
              (elim o as (λ _. Result A × W) [ none ↦ (err e, w) | some n ↦ k n w ])
      answer none = refl
      answer (some n) = refl

  mark_found-Spares :
      (id u now : String) (n : Notification) (w : W)
      → Distinct notification_id (rows_of w)
      → find notification_id id (rows_of w) ≡ some n
      → Spares u (rows_of w) (mark_found rc notices reads id u now n w).1
  unfolding mark_found ◌>>=◌
  mark_found-Spares id u now n w d e = elim (Bool-cases (is_announcement n)) [
    | inl a ↦ rw (a, upsert_read-rows id u false (λ r. r) now w) (λ m at b o. at)
    | inr a ↦ elim (Bool-cases (text_is n.user_id u)) [
      | inr other ↦ rw (a, other) (λ m at b o. at)
      | inl own ↦
          rw (a, own, notices.rows-update_many (λ m. m.id == id) (marked_read now) w.notifications)
            (spared_change u id (marked_read now) (rows_of w) n d e own)
    ]
  ]

  remove_found-Spares :
      (id u now : String) (n : Notification) (w : W)
      → Distinct notification_id (rows_of w)
      → find notification_id id (rows_of w) ≡ some n
      → Spares u (rows_of w) (remove_found rc notices reads id u now n w).1
  unfolding remove_found ◌>>=◌
  remove_found-Spares id u now n w d e = elim (Bool-cases (is_announcement n)) [
    | inl a ↦
        rw (a, upsert_read-rows id u true (λ r. record r { hidden = true }) now w) (λ m at b o. at)
    | inr a ↦ elim (Bool-cases (text_is n.user_id u)) [
      | inr other ↦ rw (a, other) (λ m at b o. at)
      | inl own ↦
          rw (a, own, notices.rows-delete_many (λ m. m.id == id) w.notifications)
            (spared_delete u id (rows_of w) n d e own)
    ]
  ]

  -- Marking a notification as read, however it ends, leaves every message of another user as it was,
  -- where ids are distinct.
  pub mark_as_read-SparesOthers :
      (id u now : String) (w : W)
      → Distinct notification_id (rows_of w)
      → SparesOthers u (rows_of w) (rows_of (mark_as_read rc notices reads id u now w).1)
  unfolding mark_as_read
  mark_as_read-SparesOthers id u now w d =
      elim (Option-cases (find notification_id id (rows_of w))) [
        | inl e ↦ rw (found_then id (not_found "通知不存在") rest w, e) (λ n at a o. at)
        | inr (m, e) ↦
            rw (found_then id (not_found "通知不存在") rest w, e)
              (>>=-Keeps_from (Spares u (rows_of w)) (mark_found rc notices reads id u now m) _ w
                (mark_found-Spares id u now m w d e)
                λ _.
                  >>=-Keeps (Spares u (rows_of w)) (invalidate_unread_cache rc notices reads u) _
                    (invalidate_unread_cache-Keeps (SparesOthers u (rows_of w)) u) λ _ v h. h)
      ]
    where
      rest : Notification → Action W String
      rest n =
          mark_found rc notices reads id u now n
          >> (invalidate_unread_cache rc notices reads u >> pure "已标记为已读")

  -- Removing a notification as a user, however it ends, leaves every message of another user as it was,
  -- where ids are distinct.
  pub remove_by_user-SparesOthers :
      (id u now : String) (w : W)
      → Distinct notification_id (rows_of w)
      → SparesOthers u (rows_of w) (rows_of (remove_by_user rc notices reads id u now w).1)
  unfolding remove_by_user
  remove_by_user-SparesOthers id u now w d =
      elim (Option-cases (find notification_id id (rows_of w))) [
        | inl e ↦ rw (found_then id (not_found "通知不存在") rest w, e) (λ n at a o. at)
        | inr (m, e) ↦
            rw (found_then id (not_found "通知不存在") rest w, e)
              (>>=-Keeps_from (Spares u (rows_of w)) (remove_found rc notices reads id u now m) _ w
                (remove_found-Spares id u now m w d e)
                λ _.
                  >>=-Keeps (Spares u (rows_of w)) (invalidate_unread_cache rc notices reads u) _
                    (invalidate_unread_cache-Keeps (SparesOthers u (rows_of w)) u) λ _ v h. h)
      ]
    where
      rest : Notification → Action W String
      rest n =
          remove_found rc notices reads id u now n
          >> (invalidate_unread_cache rc notices reads u >> pure "删除成功")
