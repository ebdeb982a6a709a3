-- ===== src/Web/Notices.antt =====
-- apps/web/src/stores/notification-store.ts: the notifications that a page has received, newest
-- first, and the counts of unread ones. The time is an argument where the code asks for it.
pub mod Recent
mod Tests
use mathlib.Core.Option
use zhuo_stack.Prelude.{
  ℕ, String, Bool, true, false, not, Option, none, some, List, [], ◌∷◌, map, ◌==◌, if◌then◌else◌,
  filter, take,
}

pub record NotificationItem : Type 0 where
  pub id : String
  pub type_name : String
  pub title : String
  pub content : String
  pub user_id : Option String
  pub sender_id : Option String
  pub sender_name : Option String
  pub is_read : Bool
  pub read_at : Option String
  pub biz_type : Option String
  pub biz_id : Option String
  pub status : Option String
  pub remark : Option String
  pub created_at : String

pub record UnreadCount : Type 0 where
  pub total : ℕ
  pub announcement : ℕ
  pub system : ℕ

pub record NotificationState : Type 0 where
  pub unread_count : UnreadCount
  pub recent_notifications : List NotificationItem
  pub drawer_open : Bool

abbrev pub max_recent : ℕ
max_recent = 50

abbrev pub no_unread : UnreadCount
no_unread = record { total = 0; announcement = 0; system = 0 }

abbrev pub initial : NotificationState
initial = record { unread_count = no_unread; recent_notifications = []; drawer_open = false }

-- `readAt || new Date().toISOString()`
abbrev pub read_time : Option String → String → String
read_time none now = now
read_time (some t) now = if t == "" then now else t

abbrev pub marked_if : String → String → NotificationItem → NotificationItem
marked_if id now n = if n.id == id then record n { is_read = true; read_at = some now } else n

abbrev pub marked : String → NotificationItem → NotificationItem
marked now n = record n { is_read = true; read_at = some (read_time n.read_at now) }

-- The actions of the store, with the time at which they run where they need it.
pub data Act : Type 0 where
  set_unread_count : UnreadCount → Act
  add_notification : NotificationItem → Act
  remove_notification : String → Act
  mark_as_read : String → String → Act
  mark_all_as_read : String → Act
  set_drawer_open : Bool → Act
  toggle_drawer : Act
  set_recent_notifications : List NotificationItem → Act

unfoldable pub act : Act → NotificationState → NotificationState
act (set_unread_count count) s = record s { unread_count = count }
act (add_notification n) s = record s {
  recent_notifications = take max_recent (n ∷ s.recent_notifications);
}
act (remove_notification id) s = record s {
  recent_notifications = filter (λ n. not (n.id == id)) s.recent_notifications;
}
act (mark_as_read id now) s = record s {
  recent_notifications = map (marked_if id now) s.recent_notifications;
}
act (mark_all_as_read now) s = record s {
  unread_count = no_unread;
  recent_notifications = map (marked now) s.recent_notifications;
}
act (set_drawer_open open_now) s = record s { drawer_open = open_now }
act toggle_drawer s = record s { drawer_open = not s.drawer_open }
act (set_recent_notifications ns) s = record s { recent_notifications = take max_recent ns }

unfoldable pub run : List Act → NotificationState → NotificationState
run [] s = s
run (a ∷ rest) s = run rest (act a s)
