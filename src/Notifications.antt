-- ===== src/Notifications.antt =====
-- apps/api/src/modules/notification/notification.service.ts: personal messages, and announcements to
-- all users. A message carries its own read mark; of an announcement there is a row for each user
-- who read it, which may be hidden. The gateway is the list of what the service hands to it.
mod Data
pub mod Ownership
pub mod Status
pub mod Unread
pub mod Query
pub mod Listing
mod Tests
use mathlib.Core.Option
use Prim.Native.String.{◌++◌}
use zhuo_stack.Prelude.{
  ℕ, zero, suc, ◌+◌, ◌-◌, ◌*◌, ◌≡◌, Bool, true, false, not, ◌&&◌, ◌||◌, Option, none, some, List,
  [], ◌∷◌, String, ◌==◌, if◌then◌else◌, is_some, leb, any, filter, map, take, drop, length, or_text,
}
use zhuo_stack.Prelude.Action.{
  Action, pure, throw, throw_if, or_throw, gets, modify_state, not_found, bad_request, ◌>>=◌, ◌>>◌,
}
use zhuo_stack.Database.Client.{RedisClient}
use zhuo_stack.Database.Table.{Table}
use zhuo_stack.Database.Redis.{Redis, get, set_value, del_key, del_pattern}
use zhuo_stack.Guards.{text_is}
unfoldable pub use Data.*

module _ (rc : RedisClient UnreadCount) (notices : Table Notification) (reads : Table ReadRow) where
  pub record NotificationWorld : Type 0 where
    pub redis : Redis rc
    pub notifications : notices.State
    pub read_rows : reads.State
    pub sent : List SseEvent

  unfoldable pub on_cache : {A : Type 0} → Action (Redis rc) A → Action NotificationWorld A
  on_cache m w = let (r, redis') = m w.redis in (r, record w { redis = redis' })

  unfoldable pub hand_over : SseEvent → Action NotificationWorld (Unit {0})
  hand_over e = modify_state (λ w. record w { sent = e ∷ w.sent })

  unfoldable pub invalidate_unread_cache : String → Action NotificationWorld (Unit {0})
  invalidate_unread_cache user_id = on_cache (del_key rc (unread_key user_id) false)

  unfoldable pub clear_unread_cache : Action NotificationWorld (Unit {0})
  clear_unread_cache = on_cache (del_pattern rc unread_pattern)

  abbrev pub change_rows :
      (Notification → Bool) → (Notification → Notification) → Action NotificationWorld (Unit {0})
  change_rows p f =
      modify_state (λ w. record w { notifications = notices.update_many p f w.notifications })

  unfoldable pub find_notification : String → Action NotificationWorld (Option Notification)
  find_notification id = gets (λ w. notices.find_first (λ n. n.id == id) w.notifications)

  -- The counts that the service computes where the cache has none.
  abbrev pub count_unread : String → NotificationWorld → UnreadCount
  count_unread user_id w =
      let personal =
        notices.count (λ n. text_is n.user_id user_id && (not (is_announcement n) && not n.is_read))
          w.notifications in
      let published = notices.count is_published w.notifications in
      let read = reads.count (λ r. r.user_id == user_id && not r.hidden) w.read_rows in
      record {
        total = personal + (published - read);
        announcement = published - read;
        system = personal;
      }

  unfoldable pub get_unread_count : String → Action NotificationWorld UnreadCount
  get_unread_count user_id = do
    cached ← on_cache (get rc (unread_key user_id) false)
    elim cached as (λ _. Action NotificationWorld UnreadCount) [
      | some held ↦ pure held
      | none ↦ (do
        result ← gets (count_unread user_id)
        on_cache (set_value rc (unread_key user_id) result 300 false)
        pure result)
    ]

  -- `upsert` with `create: { notificationId, userId, hidden }`; where the row is there, `change` is
  -- its `update`.
  unfoldable pub upsert_read :
      String → String → Bool → (ReadRow → ReadRow) → String → Action NotificationWorld (Unit {0})
  upsert_read notification_id user_id hidden change now = modify_state (λ w.
      if is_some (reads.find_first (reads_of notification_id user_id) w.read_rows)
      then record w {
        read_rows = reads.update_many (reads_of notification_id user_id) change w.read_rows;
      }
      else record w {
        read_rows =
            reads.create
              (record {
                notification_id = notification_id;
                user_id = user_id;
                hidden = hidden;
                created_at = now;
              })
              w.read_rows;
      })

  -- The row of an announcement, or the mark of an own message.
  unfoldable pub mark_found :
      String → String → String → Notification → Action NotificationWorld (Unit {0})
  mark_found notification_id user_id now n =
      if is_announcement n then upsert_read notification_id user_id false (λ r. r) now else (do
        throw_if (not (text_is n.user_id user_id)) (not_found "通知不存在")
        change_rows (λ m. m.id == notification_id) (marked_read now))

  unfoldable pub mark_as_read : String → String → String → Action NotificationWorld String
  mark_as_read notification_id user_id now = do
    found ← find_notification notification_id
    n ← or_throw found (not_found "通知不存在")
    mark_found notification_id user_id now n
    invalidate_unread_cache user_id
    pure "已标记为已读"

  -- `createMany` with `skipDuplicates`.
  unfoldable pub add_reads : List String → String → String → reads.State → reads.State
  add_reads [] user_id now s = s
  add_reads (id ∷ ids) user_id now s = add_reads ids user_id now (
      if is_some (reads.find_first (reads_of id user_id) s)
      then s
      else reads.create
          (record { notification_id = id; user_id = user_id; hidden = false; created_at = now }) s)

  unfoldable pub mark_all_as_read : String → String → Action NotificationWorld String
  mark_all_as_read user_id now = do
    change_rows (λ n. text_is n.user_id user_id && (not n.is_read && not (is_announcement n)))
        (marked_read now)
    unread ← gets (λ w.
        notices.find_many
          (λ n. is_published n && not (any (reads_of n.id user_id) (reads.rows w.read_rows)))
          w.notifications)
    modify_state
        (λ w. record w { read_rows = add_reads (map (λ n. n.id) unread) user_id now w.read_rows })
    invalidate_unread_cache user_id
    pure "已全部标记为已读"

  unfoldable pub remove_found :
      String → String → String → Notification → Action NotificationWorld (Unit {0})
  remove_found notification_id user_id now n =
      if is_announcement n
      then upsert_read notification_id user_id true (λ r. record r { hidden = true }) now
      else (do
        throw_if (not (text_is n.user_id user_id)) (not_found "通知不存在")
        modify_state (λ w. record w {
          notifications = notices.delete_many (λ m. m.id == notification_id) w.notifications;
          read_rows = reads.delete_many (λ r. r.notification_id == notification_id) w.read_rows;
        }))

  unfoldable pub remove_by_user : String → String → String → Action NotificationWorld String
  remove_by_user notification_id user_id now = do
    found ← find_notification notification_id
    n ← or_throw found (not_found "通知不存在")
    remove_found notification_id user_id now n
    invalidate_unread_cache user_id
    pure "删除成功"

  -- `fresh_id` and `now` are what the database fills in.
  unfoldable pub send_notification :
      CreateNotificationDto
      → Option CurrentUser
      → String
      → String
      → Action NotificationWorld Notification
  send_notification dto sender fresh_id now = do
    let created : Notification = record {
      id = fresh_id;
      type_name = "system";
      title = dto.title;
      content = dto.content;
      user_id = some dto.user_id;
      sender_id = Option.map (λ s. s.id) sender;
      sender_name = (elim sender [ none ↦ none | some s ↦ s.name ]);
      is_read = false;
      read_at = none;
      biz_type = dto.biz_type;
      biz_id = dto.biz_id;
      status = none;
      created_by = Option.map (λ s. s.id) sender;
      updated_by = none;
      remark = dto.remark;
      created_at = now;
    }
    modify_state (λ w. record w { notifications = notices.create created w.notifications })
    hand_over (pushed_notification dto.user_id created)
    invalidate_unread_cache dto.user_id
    unread ← get_unread_count dto.user_id
    hand_over (pushed_unread_count dto.user_id unread)
    pure created

  unfoldable pub broadcast : Notification → Action NotificationWorld (Unit {0})
  broadcast n = do hand_over (broadcast_announcement n); clear_unread_cache

  unfoldable pub create_announcement :
      CreateAnnouncementDto → CurrentUser → String → String → Action NotificationWorld Notification
  create_announcement dto sender fresh_id now = do
    let created : Notification = record {
      id = fresh_id;
      type_name = "announcement";
      title = dto.title;
      content = dto.content;
      user_id = none;
      sender_id = some sender.id;
      sender_name = sender.name;
      is_read = false;
      read_at = none;
      biz_type = none;
      biz_id = none;
      status = some (or_draft_status dto.status);
      created_by = some sender.id;
      updated_by = none;
      remark = dto.remark;
      created_at = now;
    }
    modify_state (λ w. record w { notifications = notices.create created w.notifications })
    if or_draft_status dto.status == "published" then broadcast created else pure tt
    pure created

  -- `!announcement || announcement.type !== 'announcement'`
  unfoldable pub find_announcement : String → Action NotificationWorld Notification
  find_announcement id = do
    found ← find_notification id
    n ← or_throw found (not_found "公告不存在")
    throw_if (not (is_announcement n)) (not_found "公告不存在")
    pure n

  unfoldable pub update_announcement :
      String → UpdateAnnouncementDto → CurrentUser → Action NotificationWorld Notification
  update_announcement id dto updater = do
    existing ← find_announcement id
    throw_if (text_is existing.status "revoked") (bad_request "已撤回的公告不可编辑")
    change_rows (λ n. n.id == id) (edited dto updater.id)
    pure (edited dto updater.id existing)

  unfoldable pub publish_announcement : String → CurrentUser → Action NotificationWorld Notification
  publish_announcement id publisher = do
    announcement ← find_announcement id
    throw_if (not (text_is announcement.status "draft")) (bad_request "仅草稿公告可发布")
    change_rows (λ n. n.id == id) (with_status "published" publisher.id)
    broadcast (with_status "published" publisher.id announcement)
    pure (with_status "published" publisher.id announcement)

  unfoldable pub revoke_announcement : String → CurrentUser → Action NotificationWorld String
  revoke_announcement id revoker = do
    announcement ← find_announcement id
    throw_if (not (text_is announcement.status "published")) (bad_request "仅已发布的公告可撤回")
    change_rows (λ n. n.id == id) (with_status "revoked" revoker.id)
    hand_over (broadcast_revoked announcement.id)
    clear_unread_cache
    pure "公告已撤回"

  unfoldable pub remove_announcement : String → Action NotificationWorld String
  remove_announcement id = do
    find_announcement id
    modify_state (λ w. record w {
      notifications = notices.delete_many (λ n. n.id == id) w.notifications;
      read_rows = reads.delete_many (λ r. r.notification_id == id) w.read_rows;
    })
    clear_unread_cache
    pure "删除成功"
