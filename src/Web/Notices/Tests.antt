-- ===== src/Web/Notices/Tests.antt =====
-- The notification store at concrete states.
use zhuo_stack.Prelude.{◌≡◌, none, false, List, [], ◌∷◌, map, reverse, take, String, arith}
use zhuo_stack.Web.Notices.{
  NotificationItem, initial, max_recent, Act, add_notification, mark_all_as_read,
  remove_notification, run,
}
use zhuo_stack.Web.Notices.Recent.{IsBounded, run-IsBounded, run-arrivals}

abbrev notice : String → NotificationItem
notice name = record {
  id = name;
  type_name = "system";
  title = name;
  content = "";
  user_id = none;
  sender_id = none;
  sender_name = none;
  is_read = false;
  read_at = none;
  biz_type = none;
  biz_id = none;
  status = none;
  remark = none;
  created_at = "now";
}

abbrev session : List Act
session =
    add_notification (notice "n1")
    ∷ add_notification (notice "n2")
    ∷ mark_all_as_read "now"
    ∷ remove_notification "n1"
    ∷ []

run-IsBounded_example : IsBounded (run session initial)
run-IsBounded_example = run-IsBounded session initial (omega arith)

run-arrivals_example :
    (run (map add_notification (notice "n1" ∷ notice "n2" ∷ [])) initial).recent_notifications
    ≡ take max_recent (reverse (notice "n1" ∷ notice "n2" ∷ []))
run-arrivals_example = run-arrivals (notice "n1" ∷ notice "n2" ∷ [])
