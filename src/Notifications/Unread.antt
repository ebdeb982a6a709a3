-- ===== src/Notifications/Unread.antt =====
-- The count of unread announcements, in
-- apps/api/src/modules/notification/notification.service.ts: what reading and hiding do to it.
use zhuo_stack.Prelude.{
  ℕ, ◌+◌, ◌-◌, ◌≡◌, refl, sym, ap, ◌∙◌, Bool, true, false, not, ◌&&◌, none, some, List, [], ◌∷◌,
  ◌++◌, String, arith, ◌==◌, eq_refl, if◌then◌else◌, any, filter, find?, length, subst,
}
use zhuo_stack.Prelude.Keyed.{find}
use zhuo_stack.Prelude.Action.{Action, pure, not_found, ◌>>◌, Keeps, >>=-Keeps, >>=-Keeps_from}
use zhuo_stack.Database.Client.{RedisClient}
use zhuo_stack.Database.Table.{Table}
use zhuo_stack.Guards.{text_is}
use zhuo_stack.Notifications.{
  Notification, ReadRow, UnreadCount, is_announcement, is_published, reads_of, count_unread,
  upsert_read, mark_found, remove_found, mark_as_read, remove_by_user, invalidate_unread_cache,
  on_cache,
}
use zhuo_stack.Notifications.Ownership.{notification_id, W, rows_of, found_then}

length-insert :
    {A : Type 0} (p : A → Bool) (xs ys : List A) (r : A)
    → length (filter p (xs ++ r ∷ ys)) ≡ length (filter p (xs ++ ys)) + (if p r then 1 else 0)
length-insert p [] ys r = ground arith
length-insert p (x ∷ xs) ys r = ground (arith, length-insert p xs ys r)

find?-any : {A : Type 0} (p : A → Bool) (xs : List A) → any p xs ≡ false → find? p xs ≡ none
find?-any p [] h = refl
find?-any p (x ∷ xs) h = ground (arith, find?-any p xs)

module _ (rc : RedisClient UnreadCount) (notices : Table Notification) (reads : Table ReadRow) where
  count-create :
      (p : ReadRow → Bool) (r : ReadRow) (s : reads.State)
      → reads.count p (reads.create r s) ≡ reads.count p s + (if p r then 1 else 0)
  count-create p r s =
      let (xs, ys, e, f) = reads.rows-create r s in
      rw (reads.count-rows p (reads.create r s), reads.count-rows p s, e, f)
        (length-insert p xs ys r)

  -- The user's rows that are not hidden.
  abbrev pub reads_shown : String → W rc notices reads → ℕ
  reads_shown u w = reads.count (λ r. r.user_id == u && not r.hidden) w.read_rows

  upsert_read-new :
      (id u : String) (hidden : Bool) (f : ReadRow → ReadRow) (now : String)
      (w : W rc notices reads)
      → any (reads_of id u) (reads.rows w.read_rows) ≡ false
      → (upsert_read rc notices reads id u hidden f now w).1 ≡ record w {
        read_rows =
            reads.create
              (record { notification_id = id; user_id = u; hidden = hidden; created_at = now })
              w.read_rows;
      }
  unfolding upsert_read
  upsert_read-new id u hidden f now w h =
      rw
        (
          reads.find_first-rows (reads_of id u) w.read_rows,
          find?-any (reads_of id u) (reads.rows w.read_rows) h,
        )
        refl

  reads_shown-upsert :
      (id u : String) (hidden : Bool) (f : ReadRow → ReadRow) (now : String)
      (w : W rc notices reads)
      → any (reads_of id u) (reads.rows w.read_rows) ≡ false
      → (reads_shown u (upsert_read rc notices reads id u hidden f now w).1
          ≡ reads_shown u w + (if hidden then 0 else 1))
        × ((upsert_read rc notices reads id u hidden f now w).1.notifications ≡ w.notifications)
  reads_shown-upsert id u hidden f now w h = (
    ap (λ v. reads_shown u v) (upsert_read-new id u hidden f now w h)
        ∙ count-create (λ r. r.user_id == u && not r.hidden)
            (record { notification_id = id; user_id = u; hidden = hidden; created_at = now })
            w.read_rows
        ∙ ground (arith, eq_refl u),
    ap (λ v. v.notifications) (upsert_read-new id u hidden f now w h),
  )

  -- What the counts depend on.
  abbrev Counts : ℕ → notices.State → String → W rc notices reads → Type 0
  Counts n s u w = (reads_shown u w ≡ n) × (w.notifications ≡ s)

  invalidate-Counts :
      (n : ℕ) (s : notices.State) (u v : String)
      → Keeps (Counts n s u) (invalidate_unread_cache rc notices reads v)
  unfolding invalidate_unread_cache on_cache
  invalidate-Counts n s u v w h = h

  mark_found-announcement :
      (id u now : String) (n : Notification) (w : W rc notices reads)
      → is_announcement n ≡ true
      → mark_found rc notices reads id u now n w
        ≡ upsert_read rc notices reads id u false (λ r. r) now w
  unfolding mark_found
  mark_found-announcement id u now n w a = rw a refl

  remove_found-announcement :
      (id u now : String) (n : Notification) (w : W rc notices reads)
      → is_announcement n ≡ true
      → remove_found rc notices reads id u now n w
        ≡ upsert_read rc notices reads id u true (λ r. record r { hidden = true }) now w
  unfolding remove_found
  remove_found-announcement id u now n w a = rw a refl

  after_mark :
      (id u now : String) (w : W rc notices reads) (n : Notification)
      → find notification_id id (rows_of rc notices reads w) ≡ some n
      → is_announcement n ≡ true
      → any (reads_of id u) (reads.rows w.read_rows) ≡ false
      → Counts (reads_shown u w + 1) w.notifications u (mark_as_read rc notices reads id u now w).1
  unfolding mark_as_read
  after_mark id u now w n e a h =
      rw (found_then rc notices reads id (not_found "通知不存在") rest w, e)
        (>>=-Keeps_from (Counts (reads_shown u w + 1) w.notifications u)
          (mark_found rc notices reads id u now n) _ w marked
          λ _.
            >>=-Keeps (Counts (reads_shown u w + 1) w.notifications u)
              (invalidate_unread_cache rc notices reads u) _
              (invalidate-Counts _ w.notifications u u) λ _ v k. k)
    where
      rest : Notification → Action (W rc notices reads) String
      rest m =
          mark_found rc notices reads id u now m
          >> (invalidate_unread_cache rc notices reads u >> pure "已标记为已读")

      marked :
          Counts
            (reads_shown u w + 1)
            w.notifications
            u
            (mark_found rc notices reads id u now n w).1
      marked =
          subst (λ (v : W rc notices reads). Counts (reads_shown u w + 1) w.notifications u v)
            (sym (ap (λ x. x.1) (mark_found-announcement id u now n w a)))
            (reads_shown-upsert id u false (λ r. r) now w h)

  after_remove :
      (id u now : String) (w : W rc notices reads) (n : Notification)
      → find notification_id id (rows_of rc notices reads w) ≡ some n
      → is_announcement n ≡ true
      → any (reads_of id u) (reads.rows w.read_rows) ≡ false
      → Counts (reads_shown u w) w.notifications u (remove_by_user rc notices reads id u now w).1
  unfolding remove_by_user
  after_remove id u now w n e a h =
      rw (found_then rc notices reads id (not_found "通知不存在") rest w, e)
        (>>=-Keeps_from (Counts (reads_shown u w) w.notifications u)
          (remove_found rc notices reads id u now n) _ w removed
          λ _.
            >>=-Keeps (Counts (reads_shown u w) w.notifications u)
              (invalidate_unread_cache rc notices reads u) _
              (invalidate-Counts _ w.notifications u u) λ _ v k. k)
    where
      rest : Notification → Action (W rc notices reads) String
      rest m =
          remove_found rc notices reads id u now m
          >> (invalidate_unread_cache rc notices reads u >> pure "删除成功")

      removed :
          Counts (reads_shown u w) w.notifications u (remove_found rc notices reads id u now n w).1
      removed =
          subst (λ (v : W rc notices reads). Counts (reads_shown u w) w.notifications u v)
            (sym (ap (λ x. x.1) (remove_found-announcement id u now n w a)))
            (let (p, q) = reads_shown-upsert id u true (λ r. record r { hidden = true }) now w h in
              (omega (arith, p), q))

  -- Reading an announcement that the user has no row for takes one off the count of unread
  -- announcements, and leaves that of messages.
  pub mark_as_read-count :
      (id u now : String) (w : W rc notices reads) (n : Notification)
      → find notification_id id (rows_of rc notices reads w) ≡ some n
      → is_announcement n ≡ true
      → any (reads_of id u) (reads.rows w.read_rows) ≡ false
      → let after = count_unread rc notices reads u (mark_as_read rc notices reads id u now w).1 in
        (after.announcement ≡ (count_unread rc notices reads u w).announcement - 1)
        × (after.system ≡ (count_unread rc notices reads u w).system)
  mark_as_read-count id u now w n e a h =
      let (p, q) = after_mark id u now w n e a h in
      let published = ap (notices.count is_published) q in
      (
        omega (arith, p, published),
        ap (notices.count (λ m. text_is m.user_id u && (not (is_announcement m) && not m.is_read)))
            q,
      )

  -- Hiding an announcement that the user has not read leaves every count as it was: the announcement
  -- that the user no longer sees stays counted as unread.
  pub remove_by_user-count :
      (id u now : String) (w : W rc notices reads) (n : Notification)
      → find notification_id id (rows_of rc notices reads w) ≡ some n
      → is_announcement n ≡ true
      → any (reads_of id u) (reads.rows w.read_rows) ≡ false
      → count_unread rc notices reads u (remove_by_user rc notices reads id u now w).1
        ≡ count_unread rc notices reads u w
  remove_by_user-count id u now w n e a h =
      let (p, q) = after_remove id u now w n e a h in
      ap (λ k. counts k (remove_by_user rc notices reads id u now w).1.notifications) p
      ∙ ap (counts (reads_shown u w)) q
    where
      counts : ℕ → notices.State → UnreadCount
      counts k s =
          let personal =
            notices.count (λ m. text_is m.user_id u && (not (is_announcement m) && not m.is_read))
              s in
          record {
            total = personal + (notices.count is_published s - k);
            announcement = notices.count is_published s - k;
            system = personal;
          }
