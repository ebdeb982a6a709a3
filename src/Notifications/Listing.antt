-- ===== src/Notifications/Listing.antt =====
-- What a user's list of notifications shows, in
-- apps/api/src/modules/notification/notification.service.ts.
use zhuo_stack.Prelude.{
  ◌≡◌, refl, ap, ◌∙◌, inl, inr, Bool, true, false, not, ◌&&◌, ◌||◌, Option, none, some, List, [],
  ◌∷◌, ◌++◌, map, String, arith, ◌==◌, eq_iff, if◌then◌else◌, any, filter, text_cases, any-append,
}
use zhuo_stack.Database.Client.{RedisClient}
use zhuo_stack.Database.Table.{Table}
use zhuo_stack.Guards.{text_is}
use zhuo_stack.Notifications.{
  Notification, ReadRow, UnreadCount, QueryDto, is_announcement, is_published, reads_of,
}
use zhuo_stack.Notifications.Query.{
  one_of, distinct, passes, unless_empty, id_filter, read_matches, personal_where,
  announcement_where, chosen_where, W, query_filter,
}

one_of-filter :
    (p : String → Bool) (xs : List String) (id : String)
    → one_of (filter p xs) id ≡ (one_of xs id && p id)
one_of-filter p [] id = refl
one_of-filter p (x ∷ xs) id = elim (text_cases x id) [
  | inl (b, e) ↦ ground (arith, one_of-filter p xs id, ap p e)
  | inr (b, n) ↦ ground (arith, one_of-filter p xs id)
]

one_of-distinct : (xs : List String) (id : String) → one_of (distinct xs) id ≡ one_of xs id
one_of-distinct [] id = refl
one_of-distinct (x ∷ xs) id = elim (text_cases x id) [
  | inl (b, e) ↦ ground arith
  | inr (b, n) ↦ ground (
    arith,
    one_of-filter (λ y. not (y == x)) (distinct xs) id,
    one_of-distinct xs id,
    eq_iff id x,
    eq_iff x id,
  )
]

unless_empty-passes :
    (xs : List String) (id : String)
    → (elim (unless_empty xs none) as (λ _. Bool) [ none ↦ true | some ids ↦ not (one_of ids id) ])
      ≡ not (one_of xs id)
unless_empty-passes [] id = refl
unless_empty-passes (x ∷ xs) id = refl

-- The filter on ids, by membership alone.
id_filter-passes :
    (hidden read : List String) (b : Option Bool) (id : String)
    → passes (id_filter hidden read b) id
      ≡ (not (one_of hidden id) && read_matches b (one_of read id || one_of hidden id))
unfolding id_filter
id_filter-passes hidden read none id = ground (arith, unless_empty-passes hidden id)
id_filter-passes hidden read (some true) id =
    ground
      (arith, unless_empty-passes hidden id, one_of-filter (λ id'. not (one_of hidden id')) read id)
id_filter-passes hidden read (some false) id =
    excluded (distinct (read ++ hidden))
      (one_of-distinct (read ++ hidden) id ∙ any-append (λ x. x == id) read hidden)
  where
    excluded :
        (zs : List String)
        → one_of zs id ≡ (one_of read id || one_of hidden id)
        → (elim (unless_empty zs (unless_empty hidden none)) as (λ _. Bool) [
          | none ↦ true
          | some ids ↦ not (one_of ids id)
        ])
          ≡ (not (one_of hidden id) && not (one_of read id || one_of hidden id))
    excluded [] e = ground (arith, unless_empty-passes hidden id)
    excluded (z ∷ zs) e = ground arith

-- The ids of a user's rows.
one_of-rows :
    (u : String) (p : ReadRow → Bool) (rows : List ReadRow) (id : String)
    → one_of (map (λ r. r.notification_id) (filter (λ r. r.user_id == u && p r) rows)) id
      ≡ any (λ r. reads_of id u r && p r) rows
one_of-rows u p [] id = refl
one_of-rows u p (r ∷ rows) id = ground (arith, one_of-rows u p rows id)

any-hidden :
    (p q : ReadRow → Bool) (rows : List ReadRow)
    → any p rows ≡ (any (λ r. p r && not (q r)) rows || any (λ r. p r && q r) rows)
any-hidden p q [] = refl
any-hidden p q (r ∷ rows) = ground (arith, any-hidden p q rows)

reads_of-any :
    (id u : String) (rows : List ReadRow)
    → any (reads_of id u) rows ≡ (
        any (λ r. reads_of id u r && not r.hidden) rows
        || any (λ r. reads_of id u r && r.hidden) rows)
reads_of-any id u rows = any-hidden (reads_of id u) (λ r. r.hidden) rows

-- A message of the user, or a published announcement that the user has not hidden.
abbrev pub is_visible : String → List ReadRow → Notification → Bool
is_visible u rows n =
    (text_is n.user_id u && not (is_announcement n))
    || (is_published n && not (any (λ r. reads_of n.id u r && r.hidden) rows))

-- A message carries its own mark; an announcement is read where the user has a row for it.
abbrev pub read_by : String → List ReadRow → Notification → Bool
read_by u rows n = if is_announcement n then any (reads_of n.id u) rows else n.is_read

module _ (rc : RedisClient UnreadCount) (notices : Table Notification) (reads : Table ReadRow) where
  query_filter-passes :
      (u : String) (q : QueryDto) (w : W rc notices reads) (id : String)
      → passes (query_filter rc notices reads u q w) id ≡ (
          not (any (λ r. reads_of id u r && r.hidden) (reads.rows w.read_rows))
          && read_matches q.is_read (any (reads_of id u) (reads.rows w.read_rows)))
  unfolding query_filter
  query_filter-passes u q w id =
      let rows = reads.rows w.read_rows in
      let hidden =
        map (λ (r : ReadRow). r.notification_id) (filter (λ r. r.user_id == u && r.hidden) rows) in
      let read =
        map (λ (r : ReadRow). r.notification_id)
          (filter (λ r. r.user_id == u && not r.hidden) rows) in
      rw
        (
          reads.find_many-rows (λ r. r.user_id == u && r.hidden) w.read_rows,
          reads.find_many-rows (λ r. r.user_id == u && not r.hidden) w.read_rows,
        )
        (id_filter-passes hidden read q.is_read id
          ∙ rw
              (
                one_of-rows u (λ r. r.hidden) rows id,
                one_of-rows u (λ r. not r.hidden) rows id,
                reads_of-any id u rows,
              )
              refl)

  announcement_where_iff :
      (u : String) (q : QueryDto) (w : W rc notices reads) (n : Notification)
      → announcement_where (query_filter rc notices reads u q w) n ≡ (
          is_published n
          && (not (any (λ r. reads_of n.id u r && r.hidden) (reads.rows w.read_rows))
              && read_matches q.is_read (any (reads_of n.id u) (reads.rows w.read_rows))))
  unfolding announcement_where
  announcement_where_iff u q w n = rw (query_filter-passes u q w n.id) refl

  -- Without a wanted type, the list selects exactly the notifications that the user may see, and of
  -- them, where the query asks for read or unread ones, those of that state.
  pub chosen_where-visible :
      (u : String) (q : QueryDto) (w : W rc notices reads) (n : Notification)
      → q.type_name ≡ none
      → chosen_where u q (query_filter rc notices reads u q w) n ≡ (
          is_visible u (reads.rows w.read_rows) n
          && read_matches q.is_read (read_by u (reads.rows w.read_rows) n))
  unfolding chosen_where personal_where
  chosen_where-visible u q w n e = ground (arith, announcement_where_iff u q w n)
