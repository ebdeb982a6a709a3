-- ===== src/Database/Redis/Sweep.antt =====
-- `delPattern` of apps/api/src/database/redis.service.ts: its loop over SCAN ends, and clears the keys.
use Prim.Native.String.{◌++◌}
use text.Mathlib.Text.{starts_with}
use zhuo_stack.Prelude.{
  ℕ, zero, suc, ◌+◌, ◌<◌, ◌≡◌, refl, ◌∙◌, inl, inr, true, false, Option, none, some, List, [], ◌∷◌,
  String, arith, ◌==◌, if◌then◌else◌, any, is_some, Bool-cases,
}
use zhuo_stack.Prelude.Action.{ok}
use zhuo_stack.Database.Client.{RedisClient, is_plain}
use zhuo_stack.Database.Redis.{
  Redis, Try, and_then, is_ready, del_all, del_found, sweep, del_pattern,
}

module _ {V : Type 0} (rc : RedisClient V) where
  open rc use {Text, Server, cell, send, scan, covered, glob, rounds_left}

  -- Every reply arrives.
  abbrev pub IsReliable : Type 1
  IsReliable =
      (A : Type 0) (c : Server → A × Server) (s : Server) → send c s ≡ (some (c s).0, (c s).1)

  cell-del_all :
      (ks : List String) (s : Server) (j : String)
      → cell (del_all rc ks s) j ≡ (if any (λ k. k == j) ks then none else cell s j)
  cell-del_all [] s j = refl
  cell-del_all (k ∷ ks) s j = ground (arith, cell-del_all ks (rc.del k s) j, rc.cell-del k j s)

  pub and_then-run :
      {A B : Type 0} (m : Try rc A) (f : A → Try rc B) (s : Server) {a : A} {s' : Server}
      → m s ≡ (some a, s')
      → and_then rc m f s ≡ f a s'
  and_then-run m f s e = ground arith

  -- One round, where replies arrive.
  sweep-suc :
      IsReliable
      → (n : ℕ) (p c : String) (s : Server)
      → sweep rc (suc n) p c s ≡ (
          let s' = del_all rc (scan p c s).1 s in
          elim ((scan p c s).0 == "0") [
            | true ↦ (some tt, s')
            | false ↦ sweep rc n p (scan p c s).0 s'
          ])
  unfolding sweep
  sweep-suc reliable n p c s =
      and_then-run (send (λ u. (scan p c u, u)))
        (λ keys.
          and_then rc (del_found rc keys.1)
            (λ _ u. elim (keys.0 == "0") [ true ↦ (some tt, u) | false ↦ sweep rc n p keys.0 u ]))
        s (reliable _ (λ u. (scan p c u, u)) s)
      ∙ found (scan p c s).1
    where
      found :
          (ks : List String)
          → and_then rc
              (del_found rc ks)
              (λ _ u. elim ((scan p c s).0 == "0") [
                | true ↦ (some tt, u)
                | false ↦ sweep rc n p (scan p c s).0 u
              ])
              s
            ≡ (elim ((scan p c s).0 == "0") [
              | true ↦ (some tt, del_all rc ks s)
              | false ↦ sweep rc n p (scan p c s).0 (del_all rc ks s)
            ])
      found [] = refl
      found (k ∷ ks) =
          let sent : del_found rc (k ∷ ks) s ≡ (some tt, del_all rc (k ∷ ks) s) =
            reliable _ (λ u. (tt, del_all rc (k ∷ ks) u)) s in
          and_then-run (del_found rc (k ∷ ks))
            (λ _ u. elim ((scan p c s).0 == "0") [
              | true ↦ (some tt, u)
              | false ↦ sweep rc n p (scan p c s).0 u
            ])
            s sent

  -- What a full iteration still owes at a cursor.
  abbrev Owes : String → String → Server → Type 0
  Owes p c s = (j : String) → glob p j ≡ true → is_some (cell s j) ≡ true → covered p c s j

  -- The state that the loop is to leave.
  abbrev Cleared : String → Server → Server → Type 0
  Cleared p s s' = (j : String) → cell s' j ≡ (if glob p j then none else cell s j)

  gone : (o : Option Text) → (is_some o ≡ true → ⊥) → o ≡ none
  gone none h = refl
  gone (some t) h = absurd (h refl)

  last_round :
      (p c : String) (s : Server)
      → Owes p c s
      → ((scan p c s).0 == "0") ≡ true
      → Cleared p s (del_all rc (scan p c s).1 s)
  last_round p c s owes stop j = elim (Bool-cases (any (λ k. k == j) (scan p c s).1)) [
    | inl hit ↦ rw (cell-del_all (scan p c s).1 s j, hit, rc.scan_matches p c s j hit) refl
    | inr miss ↦
        rw (cell-del_all (scan p c s).1 s j, miss)
          (elim (Bool-cases (glob p j)) [
            | inl on ↦ rw on (gone (cell s j) (λ here. missed on here miss))
            | inr off ↦ rw off refl
          ])
  ]
    where
      missed :
          glob p j ≡ true → is_some (cell s j) ≡ true → any (λ k. k == j) (scan p c s).1 ≡ false → ⊥
      missed g here miss = elim (rc.scan_next p c s j (owes j g here)) [
        | inl hit ↦ ground arith
        | inr (more, _) ↦ ground arith
      ]

  next_round :
      (p c : String) (s : Server) → Owes p c s → Owes p (scan p c s).0 (del_all rc (scan p c s).1 s)
  next_round p c s owes j g here = elim (Bool-cases (any (λ k. k == j) (scan p c s).1)) [
    | inl hit ↦ absurd (deleted hit (rw (cell-del_all (scan p c s).1 s j) at here))
    | inr miss ↦
        elim (rc.scan_next p c s j
          (owes j g (rw (cell-del_all (scan p c s).1 s j, miss) at here))) [
            | inl hit ↦ absurd (ground arith)
            | inr (_, later) ↦ later (del_all rc (scan p c s).1 s) here
          ]
  ]
    where
      deleted :
          any (λ k. k == j) (scan p c s).1 ≡ true
          → ¬ (is_some (if any (λ k. k == j) (scan p c s).1 then none else cell s j) ≡ true)
      deleted hit h = ground arith

  Cleared-del_all :
      (p c : String) (s s' : Server) → Cleared p (del_all rc (scan p c s).1 s) s' → Cleared p s s'
  Cleared-del_all p c s s' h j = elim (Bool-cases (any (λ k. k == j) (scan p c s).1)) [
    | inl hit ↦ ground (arith, h j, cell-del_all (scan p c s).1 s j, rc.scan_matches p c s j hit)
    | inr miss ↦ ground (arith, h j, cell-del_all (scan p c s).1 s j)
  ]

  del_all-shrinks :
      (ks : List String) (s : Server) (k : String)
      → is_some (cell (del_all rc ks s) k) ≡ true
      → is_some (cell s k) ≡ true
  del_all-shrinks ks s k h = ground (arith, cell-del_all ks s k)

  sweep-Cleared :
      IsReliable
      → (n : ℕ) (p c : String) (s : Server) → rounds_left p c s < n
      → Owes p c s
      → (s' : Server) × (sweep rc n p c s ≡ (some tt, s')) × Cleared p s s'
  sweep-Cleared reliable zero p c s few owes = absurd (omega (arith, few))
  sweep-Cleared reliable (suc n) p c s few owes = elim (Bool-cases ((scan p c s).0 == "0")) [
    | inl stop ↦ (
      del_all rc (scan p c s).1 s,
      rw (sweep-suc reliable n p c s, stop) refl,
      last_round p c s owes stop,
    )
    | inr more ↦
        let (s', e, clear) =
          sweep-Cleared reliable n p (scan p c s).0 (del_all rc (scan p c s).1 s)
            (omega (
              arith,
              few,
              rc.scan_shrinks p c s (del_all rc (scan p c s).1 s) more
                  (del_all-shrinks (scan p c s).1 s),
            ))
            (next_round p c s owes) in
        (s', rw (sweep-suc reliable n p c s, more) e, Cleared-del_all p c s s' clear)
  ]

  -- Where every reply arrives, `delPattern` of a prefix and a star ends, after as many rounds of SCAN
  -- as an iteration has, and has removed every key that starts with the prefix and no other.
  pub del_pattern-cell :
      IsReliable
      → (prefix : String) (r : Redis rc) → is_plain prefix ≡ true
      → is_ready rc r ≡ true
      → (s' : Server) × (del_pattern rc (prefix ++ "*") r ≡ (ok tt, record r { server = s' }))
        × ((j : String) → cell s' j ≡ (if starts_with j prefix then none else cell r.server j))
  unfolding del_pattern
  del_pattern-cell reliable prefix r plain up =
      let (s', e, clear) =
        sweep-Cleared reliable (rounds_left (prefix ++ "*") "0" r.server + 1) (prefix ++ "*") "0"
          r.server (omega arith) (λ j g here. rc.scan_start (prefix ++ "*") r.server j here g) in
      (s', rw (up, e) refl, λ j. rw (← rc.glob_prefix prefix j plain) (clear j))
