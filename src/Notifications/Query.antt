-- ===== src/Notifications/Query.antt =====
-- `getUserNotifications` and `getAnnouncementList` of
-- apps/api/src/modules/notification/notification.service.ts. A `where` is a test on rows.
use zhuo_stack.Prelude.{
  ℕ, ◌+◌, ◌-◌, ◌*◌, ◌/◌, Bool, true, false, not, ◌&&◌, ◌||◌, Option, none, some, List, [], ◌∷◌,
  ◌++◌, String, ◌==◌, if◌then◌else◌, is_some, any, filter, map, take, drop,
}
use zhuo_stack.Database.Client.{RedisClient}
use zhuo_stack.Database.Table.{Table}
use zhuo_stack.Guards.{text_is}
use zhuo_stack.Notifications.{
  Notification, ReadRow, UnreadCount, QueryDto, NotificationWorld, is_announcement, is_published,
  reads_of,
}

abbrev pub one_of : List String → String → Bool
one_of ids id = any (λ x. x == id) ids

-- `Array.from(new Set(ids))`
abbrev pub distinct : List String → List String
distinct [] = []
distinct (x ∷ xs) = let rest = distinct xs in x ∷ filter (λ y. not (y == x)) rest

-- `{ in, notIn }`
pub record IdFilter : Type 0 where
  pub one_of_ids : Option (List String)
  pub not_in : Option (List String)

abbrev pub passes : IdFilter → String → Bool
passes f id =
    elim f.one_of_ids [ none ↦ true | some ids ↦ one_of ids id ]
    && elim f.not_in [ none ↦ true | some ids ↦ not (one_of ids id) ]

-- `if (ids.length > 0) filter.notIn = ids`
abbrev pub unless_empty : List String → Option (List String) → Option (List String)
unless_empty [] old = old
unless_empty (x ∷ xs) old = some (x ∷ xs)

unfoldable pub id_filter : List String → List String → Option Bool → IdFilter
id_filter hidden read none = record { one_of_ids = none; not_in = unless_empty hidden none }
id_filter hidden read (some true) = record {
  one_of_ids = some (filter (λ id. not (one_of hidden id)) read);
  not_in = unless_empty hidden none;
}
id_filter hidden read (some false) = record {
  one_of_ids = none;
  not_in = unless_empty (distinct (read ++ hidden)) (unless_empty hidden none);
}

abbrev pub read_matches : Option Bool → Bool → Bool
read_matches none b = true
read_matches (some true) b = b
read_matches (some false) b = not b

-- `type && type !== 'announcement'` narrows the type.
abbrev pub type_matches : Option String → String → Bool
type_matches none t = true
type_matches (some wanted) t =
    if wanted == "" || wanted == "announcement" then true else t == wanted

unfoldable pub personal_where : String → QueryDto → Notification → Bool
personal_where user_id q n =
    text_is n.user_id user_id
    && ((if elim q.type_name [ none ↦ false | some t ↦ not (t == "" || t == "announcement") ]
          then type_matches q.type_name n.type_name
          else not (is_announcement n))
        && read_matches q.is_read n.is_read)

unfoldable pub announcement_where : IdFilter → Notification → Bool
announcement_where f n = is_published n && passes f n.id

unfoldable pub chosen_where : String → QueryDto → IdFilter → Notification → Bool
chosen_where user_id q f n = elim q.type_name [
  | none ↦ personal_where user_id q n || announcement_where f n
  | some t ↦
      if t == "announcement"
      then announcement_where f n
      else if t == ""
      then personal_where user_id q n || announcement_where f n
      else personal_where user_id q n
]

-- What the response shows of a notification, beside its own fields.
pub record NotificationView : Type 0 where
  pub item : Notification
  pub is_read : Bool
  pub read_at : Option String

abbrev pub first_time : List ReadRow → Option String
first_time [] = none
first_time (r ∷ rs) = some r.created_at

pub record Pagination : Type 0 where
  pub total : ℕ
  pub page : ℕ
  pub page_size : ℕ
  pub total_pages : ℕ

-- `Math.ceil(total / pageSize)`, for a positive page size.
abbrev pub ceil_div : ℕ → ℕ → ℕ
ceil_div total size = (total + (size - 1)) / size

-- `skip: (page - 1) * pageSize, take: pageSize`
abbrev pub page_of {ℓ} : {A : Type ℓ} → ℕ → ℕ → List A → List A
page_of page size xs = take size (drop ((page - 1) * size) xs)

module _ (rc : RedisClient UnreadCount) (notices : Table Notification) (reads : Table ReadRow) where
  abbrev pub W : Type 0
  W = NotificationWorld rc notices reads

  unfoldable pub query_filter : String → QueryDto → W → IdFilter
  query_filter user_id q w =
      let hidden =
        map (λ r. r.notification_id)
          (reads.find_many (λ r. r.user_id == user_id && r.hidden) w.read_rows) in
      let read =
        map (λ r. r.notification_id)
          (reads.find_many (λ r. r.user_id == user_id && not r.hidden) w.read_rows) in
      id_filter hidden read q.is_read

  unfoldable pub view : String → W → Notification → NotificationView
  view user_id w n =
      let rows = reads.find_many (reads_of n.id user_id) w.read_rows in
      if is_announcement n
      then record {
        item = n;
        is_read = (elim rows [ [] ↦ false | _ ∷ _ ↦ true ]);
        read_at = first_time rows;
      }
      else record { item = n; is_read = n.is_read; read_at = n.read_at }

  unfoldable pub get_user_notifications : String → QueryDto → W → List NotificationView × Pagination
  get_user_notifications user_id q w =
      let f = query_filter user_id q w in
      let total = notices.count (chosen_where user_id q f) w.notifications in
      (
        map (view user_id w) (
            page_of q.page q.page_size
              (notices.find_many (chosen_where user_id q f) w.notifications)),
        record {
          total = total;
          page = q.page;
          page_size = q.page_size;
          total_pages = ceil_div total q.page_size;
        },
      )

  unfoldable pub get_announcement_list : QueryDto → W → List Notification × Pagination
  get_announcement_list q w =
      let wanted = λ (n : Notification). is_announcement n && not (is_some n.user_id) in
      let total = notices.count wanted w.notifications in
      (
        page_of q.page q.page_size (notices.find_many wanted w.notifications),
        record {
          total = total;
          page = q.page;
          page_size = q.page_size;
          total_pages = ceil_div total q.page_size;
        },
      )
