-- ===== src/Notifications/Tests.antt =====
-- The notifications at a concrete world.
use text.Mathlib.Text.{starts_with}
use zhuo_stack.Prelude.{
  ◌≡◌, ◌↔◌, refl, eqb, Bool, true, false, ◌&&◌, none, some, [], ◌∷◌, String, arith, if◌then◌else◌,
}
use zhuo_stack.Prelude.Action.{ok, err, bad_request, ◌>>=◌}
use zhuo_stack.Database.Client.{RedisClient, is_plain}
use zhuo_stack.Database.Memory.{memory_redis}
use zhuo_stack.Database.Redis.{Redis, is_ready, del_pattern}
use zhuo_stack.Database.Redis.Sweep.{IsReliable, del_pattern-cell}
use zhuo_stack.Database.Table.{memory_table}
use zhuo_stack.Notifications.{
  Notification, ReadRow, UnreadCount, CurrentUser, QueryDto, count_unread, mark_as_read,
  remove_by_user, find_announcement, find_notification, update_announcement,
}
use zhuo_stack.Notifications.Query.{chosen_where, query_filter, read_matches}
use zhuo_stack.Notifications.Listing.{is_visible, read_by, chosen_where-visible}
use zhuo_stack.Notifications.Ownership.{
  SparesOthers, W, rows_of, mark_as_read-SparesOthers, remove_by_user-SparesOthers,
}
use zhuo_stack.Notifications.Status.{Follows, revoke, act, act-Follows}
use zhuo_stack.Notifications.Unread.{remove_by_user-count}

abbrev same_count : UnreadCount → UnreadCount → Bool
same_count a b = eqb a.total b.total && (eqb a.announcement b.announcement && eqb a.system b.system)

same_count_iff : (a b : UnreadCount) → (same_count a b ≡ true) ↔ (a ≡ b)
same_count_iff a b = ground arith

abbrev cache : RedisClient UnreadCount
cache = memory_redis same_count same_count_iff

abbrev notice : Notification
notice = record {
  id = "n1";
  type_name = "announcement";
  title = "升级";
  content = "今晚";
  user_id = none;
  sender_id = some "u1";
  sender_name = some "Zhuo";
  is_read = false;
  read_at = none;
  biz_type = none;
  biz_id = none;
  status = some "published";
  created_by = some "u1";
  updated_by = none;
  remark = none;
  created_at = "t1";
}

abbrev message : Notification
message = record notice {
  id = "n2";
  type_name = "system";
  user_id = some "u2";
  status = none;
  created_at = "t2";
}

abbrev Here : Type 0
Here = W cache (memory_table Notification) (memory_table ReadRow)

abbrev held : Redis cache
held = record {
  connected = true;
  required = false;
  server = record { entries = []; ttl = λ _. none };
}

abbrev start : Here
start = record { redis = held; notifications = notice ∷ message ∷ []; read_rows = []; sent = [] }

abbrev warm : Redis cache
warm = record held {
  server =
      cache.set "notification:unread:u3"
        (cache.stringify (record { total = 1; announcement = 1; system = 0 })) 300 held.server;
}

always : IsReliable cache
always A c s = refl

del_pattern-cell_example :
    (s : cache.Server) × (del_pattern cache "notification:unread:*" warm
      ≡ (ok tt, record warm { server = s }))
    × ((j : String)
        → cache.cell s j
          ≡ (if starts_with j "notification:unread:" then none else cache.cell warm.server j))
unfolding is_ready is_plain
del_pattern-cell_example = del_pattern-cell cache always "notification:unread:" warm refl refl

mark_as_read-SparesOthers_example : SparesOthers "u3" (notice ∷ message ∷ []) (
    rows_of cache
      (memory_table Notification)
      (memory_table ReadRow)
      (mark_as_read cache
        (memory_table Notification)
        (memory_table ReadRow)
        "n2"
        "u3"
        "t3"
        start).1)
mark_as_read-SparesOthers_example =
    mark_as_read-SparesOthers cache (memory_table Notification) (memory_table ReadRow) "n2" "u3"
      "t3" start (refl, (refl, tt))

remove_by_user-SparesOthers_example : SparesOthers "u3" (notice ∷ message ∷ []) (
    rows_of cache
      (memory_table Notification)
      (memory_table ReadRow)
      (remove_by_user cache
        (memory_table Notification)
        (memory_table ReadRow)
        "n2"
        "u3"
        "t3"
        start).1)
remove_by_user-SparesOthers_example =
    remove_by_user-SparesOthers cache (memory_table Notification) (memory_table ReadRow) "n2" "u3"
      "t3" start (refl, (refl, tt))

abbrev chief : CurrentUser
chief = record { id = "u1"; name = some "Zhuo" }

act-Follows_example : Follows (notice ∷ message ∷ []) (
    rows_of cache
      (memory_table Notification)
      (memory_table ReadRow)
      (act cache (memory_table Notification) (memory_table ReadRow) (revoke "n1" chief) start))
act-Follows_example =
    act-Follows cache (memory_table Notification) (memory_table ReadRow) (revoke "n1" chief) start
      (refl, (refl, tt))

frozen :
    (update_announcement cache
      (memory_table Notification)
      (memory_table ReadRow)
      "n1"
      (record { title = some "x"; content = none; remark = none })
      chief
      (record start { notifications = record notice { status = some "revoked" } ∷ [] })).0
    ≡ err (bad_request "已撤回的公告不可编辑")
unfolding update_announcement find_announcement find_notification ◌>>=◌
frozen = refl

remove_by_user-count_example :
    count_unread cache
      (memory_table Notification)
      (memory_table ReadRow)
      "u3"
      (remove_by_user cache
        (memory_table Notification)
        (memory_table ReadRow)
        "n1"
        "u3"
        "t3"
        start).1
    ≡ record { total = 1; announcement = 1; system = 0 }
remove_by_user-count_example =
    remove_by_user-count cache (memory_table Notification) (memory_table ReadRow) "n1" "u3" "t3"
      start notice refl refl refl

abbrev unread_only : QueryDto
unread_only = record { page = 1; page_size = 10; type_name = none; is_read = some false }

chosen_where-visible_example :
    chosen_where "u3" unread_only
      (query_filter cache (memory_table Notification) (memory_table ReadRow) "u3" unread_only start)
      notice
    ≡ (is_visible "u3" [] notice && read_matches (some false) (read_by "u3" [] notice))
chosen_where-visible_example =
    chosen_where-visible cache (memory_table Notification) (memory_table ReadRow) "u3" unread_only
      start notice refl
