-- ===== src/Web/Notices/Recent.antt =====
-- The recent notifications of apps/web/src/stores/notification-store.ts.
use zhuo_stack.Prelude.{
  ℕ, zero, suc, ◌≤◌, ◌≡◌, refl, sym, ap, ◌∙◌, not, List, [], ◌∷◌, map, reverse, reverse_aux, ◌==◌,
  arith, take, length, length-take-le, length-filter-le,
}
use zhuo_stack.Web.Notices.{
  NotificationItem, NotificationState, max_recent, marked, marked_if, initial, Act,
  add_notification, set_unread_count, remove_notification, mark_as_read, mark_all_as_read,
  set_drawer_open, toggle_drawer, set_recent_notifications, act, run,
}

length-map : {A B : Type 0} (f : A → B) (xs : List A) → length (map f xs) ≡ length xs
length-map f [] = refl
length-map f (x ∷ xs) = ground (arith, length-map f xs)

abbrev pub IsBounded : NotificationState → Type 0
IsBounded s = length s.recent_notifications ≤ max_recent

act-IsBounded : (a : Act) (s : NotificationState) → IsBounded s → IsBounded (act a s)
unfolding act
act-IsBounded (set_unread_count c) s h = h
act-IsBounded (add_notification n) s h = length-take-le max_recent (n ∷ s.recent_notifications)
act-IsBounded (remove_notification id) s h =
    omega (
      arith,
      h,
      length-filter-le (λ (n : NotificationItem). not (n.id == id)) s.recent_notifications,
    )
act-IsBounded (mark_as_read id now) s h =
    rw (length-map (marked_if id now) s.recent_notifications) h
act-IsBounded (mark_all_as_read now) s h = rw (length-map (marked now) s.recent_notifications) h
act-IsBounded (set_drawer_open b) s h = h
act-IsBounded toggle_drawer s h = h
act-IsBounded (set_recent_notifications ns) s h = length-take-le max_recent ns

-- However the page uses the store, it keeps at most fifty notifications, where it kept no more before.
pub run-IsBounded :
    (actions : List Act) (s : NotificationState) → IsBounded s → IsBounded (run actions s)
unfolding run
run-IsBounded [] s h = h
run-IsBounded (a ∷ rest) s h = run-IsBounded rest (act a s) (act-IsBounded a s h)

take-take : {A : Type 0} (j k : ℕ) (xs : List A) → j ≤ k → take j (take k xs) ≡ take j xs
take-take zero k xs h = refl
take-take (suc j) zero xs h = absurd (omega (arith, h))
take-take (suc j) (suc k) [] h = refl
take-take (suc j) (suc k) (x ∷ xs) h = ap (◌∷◌ x) (take-take j k xs (omega (arith, h)))

take-cons_take :
    {A : Type 0} (k : ℕ) (x : A) (xs : List A) → take k (x ∷ take k xs) ≡ take k (x ∷ xs)
take-cons_take zero x xs = refl
take-cons_take (suc k) x xs = ap (◌∷◌ x) (take-take k (suc k) xs (omega arith))

take-reverse_aux :
    {A : Type 0} (k : ℕ) (ns xs : List A)
    → take k (reverse_aux ns (take k xs)) ≡ take k (reverse_aux ns xs)
take-reverse_aux k [] xs = take-take k k xs (omega arith)
take-reverse_aux k (n ∷ ns) xs =
    sym (take-reverse_aux k ns (n ∷ take k xs))
    ∙ ap (λ l. take k (reverse_aux ns l)) (take-cons_take k n xs)
    ∙ take-reverse_aux k ns (n ∷ xs)

run-arrivals_from :
    (ns : List NotificationItem) (s : NotificationState)
    → IsBounded s
    → (run (map add_notification ns) s).recent_notifications
      ≡ take max_recent (reverse_aux ns s.recent_notifications)
unfolding run act
run-arrivals_from [] s h = sym (take_all max_recent s.recent_notifications h)
  where
    take_all : (k : ℕ) (xs : List NotificationItem) → length xs ≤ k → take k xs ≡ xs
    take_all zero [] h = refl
    take_all zero (x ∷ xs) h = absurd (omega (arith, h))
    take_all (suc k) [] h = refl
    take_all (suc k) (x ∷ xs) h = ap (◌∷◌ x) (take_all k xs (omega (arith, h)))
run-arrivals_from (n ∷ ns) s h =
    run-arrivals_from ns (act (add_notification n) s)
      (length-take-le max_recent (n ∷ s.recent_notifications))
    ∙ take-reverse_aux max_recent ns (n ∷ s.recent_notifications)

-- Notifications that arrive one after another at a fresh page are kept newest first, the last fifty
-- of them.
pub run-arrivals :
    (ns : List NotificationItem)
    → (run (map add_notification ns) initial).recent_notifications ≡ take max_recent (reverse ns)
run-arrivals ns = run-arrivals_from ns initial (omega arith)
