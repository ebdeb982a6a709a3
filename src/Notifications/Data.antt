-- ===== src/Notifications/Data.antt =====
-- The rows, the requests and the events of apps/api/src/modules/notification/notification.service.ts.
use Prim.Native.String.{◌++◌}
use zhuo_stack.Prelude.{
  ℕ, Bool, true, not, ◌&&◌, Option, none, some, String, ◌==◌, is_some, or_text,
}
use zhuo_stack.Guards.{text_is}

pub record Notification : Type 0 where
  pub id : String
  pub type_name : String
  pub title : String
  pub content : String
  pub user_id : Option String
  pub sender_id : Option String
  pub sender_name : Option String
  pub is_read : Bool
  pub read_at : Option String
  pub biz_type : Option String
  pub biz_id : Option String
  pub status : Option String
  pub created_by : Option String
  pub updated_by : Option String
  pub remark : Option String
  pub created_at : String

pub record ReadRow : Type 0 where
  pub notification_id : String
  pub user_id : String
  pub hidden : Bool
  pub created_at : String

pub record UnreadCount : Type 0 where
  pub total : ℕ
  pub announcement : ℕ
  pub system : ℕ

pub record CurrentUser : Type 0 where
  pub id : String
  pub name : Option String

pub record CreateNotificationDto : Type 0 where
  pub title : String
  pub content : String
  pub user_id : String
  pub biz_type : Option String
  pub biz_id : Option String
  pub remark : Option String

pub record CreateAnnouncementDto : Type 0 where
  pub title : String
  pub content : String
  pub status : Option String
  pub remark : Option String

pub record UpdateAnnouncementDto : Type 0 where
  pub title : Option String
  pub content : Option String
  pub remark : Option String

pub record QueryDto : Type 0 where
  pub page : ℕ
  pub page_size : ℕ
  pub type_name : Option String
  pub is_read : Option Bool

-- What the gateway is handed: a message for one user, or for all.
pub data SseEvent : Type 0 where
  pushed_notification : String → Notification → SseEvent
  pushed_unread_count : String → UnreadCount → SseEvent
  broadcast_announcement : Notification → SseEvent
  broadcast_revoked : String → SseEvent

abbrev pub unread_key : String → String
unread_key user_id = "notification:unread:" ++ user_id

abbrev pub unread_pattern : String
unread_pattern = "notification:unread:" ++ "*"

abbrev pub is_announcement : Notification → Bool
is_announcement n = n.type_name == "announcement"

-- `type: 'announcement', status: 'published', userId: null`
abbrev pub is_published : Notification → Bool
is_published n = is_announcement n && (text_is n.status "published" && not (is_some n.user_id))

abbrev pub reads_of : String → String → ReadRow → Bool
reads_of notification_id user_id r = r.notification_id == notification_id && r.user_id == user_id

abbrev pub or_draft_status : Option String → String
or_draft_status none = "published"
or_draft_status (some s) = or_text s "published"

-- `data: { ...dto, updatedBy }`
abbrev pub or_old {ℓ} : {A : Type ℓ} → Option A → A → A
or_old none old = old
or_old (some new) old = new

unfoldable pub edited : UpdateAnnouncementDto → String → Notification → Notification
edited dto updater n = record n {
  title = or_old dto.title n.title;
  content = or_old dto.content n.content;
  remark = (elim dto.remark [ none ↦ n.remark | some r ↦ some r ]);
  updated_by = some updater;
}

unfoldable pub with_status : String → String → Notification → Notification
with_status status by n = record n { status = some status; updated_by = some by }

abbrev pub marked_read : String → Notification → Notification
marked_read now n = record n { is_read = true; read_at = some now }
