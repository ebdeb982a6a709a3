-- ===== src/Posts/Laws.antt =====
-- What the requests of apps/api/src/modules/system/post/post.service.ts leave of the posts.
use zhuo_stack.Prelude.{
  subst, ◌≡◌, refl, sym, ap, ◌∙◌, ◌⊎◌, inl, inr, Bool, true, false, Option, none, some, String,
  arith, ◌==◌, ltb, length, Bool-cases, Option-cases, In,
}
use zhuo_stack.Prelude.Keyed.{has, has-filter_ne}
use zhuo_stack.Prelude.Action.{
  Action, ok, err, gets, not_found, conflict, ◌>>=◌, >>=-run, >>=-stop, throw_if-stop,
  throw_if-pass,
}
use zhuo_stack.Database.Table.{Table}
use zhuo_stack.Database.Unique.{
  IsUnique, create-IsUnique, delete_many-IsUnique, update_many-IsUnique, update_many-IsUnique_kept,
}
use zhuo_stack.Auth.Account.{User}
use zhuo_stack.Guards.{Status}
use zhuo_stack.Depts.{or_old}
use zhuo_stack.Depts.Parents.{filter-none}
use zhuo_stack.Trees.Chains.{same}
use zhuo_stack.Roles.{given}
use zhuo_stack.Posts.{
  SysPost, CreatePostDto, created_post, UpdatePostDto, updated_post, post_id, post_code, PostWorld,
  by_code, create, find_one, is_other, check_code, update, remove,
}

module _ (contains : String → String → Bool) (post_table : Table SysPost)
    (user_table : Table User) where
  abbrev pub W : Type 0
  W = PostWorld contains post_table user_table

  -- No two posts have the same id, and no two the same code.
  abbrev pub PostsUnique : W → Type 0
  PostsUnique w = IsUnique post_id post_code (post_table.rows w.posts)

  create-cases :
      (dto : CreatePostDto) (fresh_id : String) (status : Status) (w : W)
      → ((create contains post_table user_table dto fresh_id status w).1 ≡ w)
        ⊎ ((by_code contains post_table user_table dto.code w ≡ none)
            × ((create contains post_table user_table dto fresh_id status w).1 ≡ record w {
              posts = post_table.create (created_post dto fresh_id status) w.posts;
            }))
  unfolding create ◌>>=◌
  create-cases dto fresh_id status w =
      elim (Option-cases (by_code contains post_table user_table dto.code w)) [
        | inl e ↦ inr (e, rw e refl)
        | inr (r, e) ↦ inl (rw e refl)
      ]

  -- Creating a post, however the request ends, keeps ids and codes distinct, where the id that the
  -- database draws is new.
  pub create-PostsUnique :
      (dto : CreatePostDto) (fresh_id : String) (status : Status) (w : W)
      → has post_id fresh_id (post_table.rows w.posts) ≡ false
      → PostsUnique w
      → PostsUnique (create contains post_table user_table dto fresh_id status w).1
  create-PostsUnique dto fresh_id status w fresh u = elim (create-cases dto fresh_id status w) [
    | inl e ↦ subst PostsUnique (sym e) u
    | inr (free, e) ↦ subst PostsUnique (sym e) (
        create-IsUnique post_id post_code post_table w.posts (created_post dto fresh_id status) u
          fresh free)
  ]

  find_one-ok :
      (id : String) (w : W) (r : SysPost)
      → post_table.find_first (λ r. r.id == id) w.posts ≡ some r
      → find_one contains post_table user_table id w ≡ (ok r, w)
  unfolding find_one ◌>>=◌
  find_one-ok id w r e = rw e refl

  find_one-err :
      (id : String) (w : W)
      → post_table.find_first (λ r. r.id == id) w.posts ≡ none
      → find_one contains post_table user_table id w ≡ (err (not_found id), w)
  unfolding find_one ◌>>=◌
  find_one-err id w e = rw e refl

  check_code-ok :
      (id : String) (c : Option String) (w : W)
      → (check_code contains post_table user_table id c w ≡ (err (conflict "岗位编码已存在"), w))
        ⊎ ((given c ≡ true
              → is_other contains post_table user_table id
                  (by_code contains post_table user_table (or_old c "") w)
                ≡ false)
            × (check_code contains post_table user_table id c w ≡ (ok tt, w)))
  unfolding check_code ◌>>=◌
  check_code-ok id c w = elim (Bool-cases (given c)) [
    | inr off ↦ inr (λ on. absurd (ground arith), rw off refl)
    | inl on ↦
        elim (Bool-cases (
          is_other contains post_table user_table id
            (by_code contains post_table user_table (or_old c "") w))) [
              | inl other ↦ inl (rw (on, other) refl)
              | inr free ↦ inr (λ _. free, rw (on, free) refl)
            ]
  ]

  -- What an update of a post that is there writes: nothing, where the code is another post's.
  update-cases :
      (id : String) (dto : UpdatePostDto) (w : W)
      → ((update contains post_table user_table id dto w).1 ≡ w)
        ⊎ ((given dto.code ≡ true
              → is_other contains post_table user_table id
                  (by_code contains post_table user_table (or_old dto.code "") w)
                ≡ false)
            × ((update contains post_table user_table id dto w).1 ≡ record w {
              posts = post_table.update_many (λ r. r.id == id) (updated_post dto) w.posts;
            }))
  unfolding update
  update-cases id dto w = elim (Option-cases (post_table.find_first (λ r. r.id == id) w.posts)) [
    | inl e ↦ inl (
        ap (λ x. x.1)
          (>>=-stop (find_one contains post_table user_table id) _ w (find_one-err id w e)))
    | inr (r, e) ↦
        let found = λ (rest : SysPost → Action W SysPost).
          >>=-run (find_one contains post_table user_table id) rest w (find_one-ok id w r e) in
        elim (check_code-ok id dto.code w) [
          | inl used ↦ inl (
              ap (λ x. x.1)
                (found _
                  ∙ >>=-stop (check_code contains post_table user_table id dto.code) _ w used))
          | inr (free, passed) ↦ inr (
            free,
            ap (λ x. x.1)
                (found _
                  ∙ >>=-run (check_code contains post_table user_table id dto.code) _ w passed
                  ∙ >>=-run _ _ w refl),
          )
        ]
  ]

  updated-PostsUnique :
      (id : String) (dto : UpdatePostDto) (w : W)
      → ((dto.code ≡ none) ⊎ (given dto.code ≡ true))
      → (given dto.code ≡ true
          → is_other contains post_table user_table id
              (by_code contains post_table user_table (or_old dto.code "") w)
            ≡ false)
      → PostsUnique w
      → PostsUnique
          (record w { posts = post_table.update_many (λ r. r.id == id) (updated_post dto) w.posts })
  updated-PostsUnique id dto w (inl e) free u =
      update_many-IsUnique_kept post_id post_code post_table w.posts id (updated_post dto)
        (λ r. refl) (λ r. rw e refl) u
  updated-PostsUnique id dto w (inr on) free u =
      update_many-IsUnique post_id post_code post_table w.posts id (updated_post dto) (λ r. refl)
        (or_old dto.code "") (λ r. takes dto.code r.code on) u (free on)
    where
      takes : (c : Option String) (old : String) → given c ≡ true → or_old c old ≡ or_old c ""
      takes none old h = absurd (ground arith)
      takes (some c) old h = refl

  -- Updating a post, however the request ends, keeps ids and codes distinct, where the code that the
  -- request names, if any, is not empty.
  pub update-PostsUnique :
      (id : String) (dto : UpdatePostDto) (w : W)
      → ((dto.code ≡ none) ⊎ (given dto.code ≡ true))
      → PostsUnique w
      → PostsUnique (update contains post_table user_table id dto w).1
  update-PostsUnique id dto w named u = elim (update-cases id dto w) [
    | inl e ↦ subst PostsUnique (sym e) u
    | inr (free, e) ↦ subst PostsUnique (sym e) (updated-PostsUnique id dto w named free u)
  ]

  -- Every post that a user names is a post.
  abbrev pub PostsKnown : W → Type 0
  PostsKnown w =
      (u : User)
      → In u (user_table.rows w.users)
      → (r : String) → has same r u.post_ids ≡ true
      → has post_id r (post_table.rows w.posts) ≡ true

  remove-cases :
      (id : String) (w : W)
      → ((remove contains post_table user_table id w).1 ≡ w)
        ⊎ ((ltb 0 (length (user_table.find_many (λ u. has same id u.post_ids) w.users)) ≡ false)
            × ((remove contains post_table user_table id w).1
                ≡ record w { posts = post_table.delete_many (λ r. r.id == id) w.posts }))
  unfolding remove
  remove-cases id w = elim (Option-cases (post_table.find_first (λ r. r.id == id) w.posts)) [
    | inl e ↦ inl (
        ap (λ x. x.1)
          (>>=-stop (find_one contains post_table user_table id) _ w (find_one-err id w e)))
    | inr (r, e) ↦
        let found = λ (rest : SysPost → Action W String).
          >>=-run (find_one contains post_table user_table id) rest w (find_one-ok id w r e) in
        elim (Bool-cases
          (ltb 0 (length (user_table.find_many (λ u. has same id u.post_ids) w.users)))) [
            | inl used ↦ inl (
                ap (λ x. x.1)
                  (found _
                    ∙ >>=-run
                        (gets (λ w. user_table.find_many (λ u. has same id u.post_ids) w.users)) _ w
                        refl
                    ∙ throw_if-stop _ _ _ w used))
            | inr free ↦ inr (
              free,
              ap (λ x. x.1)
                  (found _
                    ∙ >>=-run
                        (gets (λ w. user_table.find_many (λ u. has same id u.post_ids) w.users)) _ w
                        refl
                    ∙ throw_if-pass _ _ _ w free
                    ∙ >>=-run _ _ w refl),
            )
          ]
  ]

  -- Removing a post, however the request ends, leaves no user with a post that is not there, where no
  -- user had one before; and it keeps ids and codes distinct, where they were.
  pub remove-PostsKnown :
      (id : String) (w : W)
      → PostsKnown w
      → PostsUnique w
      → PostsKnown (remove contains post_table user_table id w).1
        × PostsUnique (remove contains post_table user_table id w).1
  remove-PostsKnown id w known u = elim (remove-cases id w) [
    | inl e ↦ (subst PostsKnown (sym e) known, subst PostsUnique (sym e) u)
    | inr (free, e) ↦ (
      subst PostsKnown (sym e) (left free),
      subst PostsUnique (sym e)
          (delete_many-IsUnique post_id post_code post_table w.posts (λ r. r.id == id) u),
    )
  ]
    where
      left :
          ltb 0 (length (user_table.find_many (λ u. has same id u.post_ids) w.users)) ≡ false
          → PostsKnown (record w { posts = post_table.delete_many (λ r. r.id == id) w.posts })
      left free v at r names =
          let unused =
            filter-none (λ (x : User). has same id x.post_ids) (user_table.rows w.users) v
              (rw (user_table.find_many-rows (λ x. has same id x.post_ids) w.users) at free) at in
          rw (post_table.rows-delete_many (λ x. x.id == id) w.posts) (
            has-filter_ne post_id r id (post_table.rows w.posts)
              (λ same_one.
                absurd (
                  let q = subst (λ k. has same k v.post_ids ≡ true) same_one names in ground arith))
              (known v at r names))
