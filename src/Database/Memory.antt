-- ===== src/Database/Memory.antt =====
-- A Redis in memory, at which the theorems are instantiated: its server is always ready, and no
-- reply is lost.
use Prim.Native.String.append
use Prim.Native.String.{◌++◌}
use text.Mathlib.Text.{starts_with}
use zhuo_stack.Prelude.{
  List, [], ◌∷◌, any, is_some, text_cases, Bool-cases, sym, inl, inr, subst, ℕ, suc, ◌≡◌, refl, ◌↔◌,
  Bool, true, false, Option, none, some, String, arith, ◌==◌, eq_iff, if◌then◌else◌, eqb,
}
use zhuo_stack.Database.Client.{RedisClient}

pub data MemoryText (V : Type 0) : Type 0 where
  json : V → MemoryText V
  plain : String → MemoryText V
  counter : ℕ → MemoryText V

pub record MemoryServer (V : Type 0) : Type 0 where
  pub entries : List (String × Option (MemoryText V))
  pub ttl : String → Option ℕ

module _ {V : Type 0} where
  -- The newest entry of a key counts.
  abbrev pub lookup : List (String × Option (MemoryText V)) → String → Option (MemoryText V)
  lookup [] j = none
  lookup ((k, o) ∷ rest) j = if k == j then o else lookup rest j

  abbrev pub next_count : Option (MemoryText V) → ℕ
  next_count none = 1
  next_count (some (counter n)) = suc n
  next_count (some (json v)) = 1
  next_count (some (plain t)) = 1

  abbrev pub parse_memory : MemoryText V → Option V
  parse_memory (json v) = some v
  parse_memory (plain t) = none
  parse_memory (counter n) = none

-- A pattern that ends in a star is a prefix.
abbrev pub is_nil : String → Bool
is_nil String.[] = true
is_nil (String.◌∷◌ c s) = false

abbrev pub without_last : String → String
without_last String.[] = ""
without_last (String.◌∷◌ c s) =
    let rest = without_last s in if is_nil s then "" else String.◌∷◌ c rest

unfoldable pub memory_glob : String → String → Bool
memory_glob p k = starts_with k (without_last p)

star_filled : (s : String) → is_nil (s ++ "*") ≡ false
star_filled String.[] = refl
star_filled (String.◌∷◌ c s) = rw (append.cons c s "*") refl

without_last-star : (p : String) → without_last (p ++ "*") ≡ p
without_last-star String.[] = refl
without_last-star (String.◌∷◌ c s) =
    rw (append.cons c s "*", star_filled s, without_last-star s) refl

pub memory_glob_prefix : (p k : String) → memory_glob (p ++ "*") k ≡ starts_with k p
unfolding memory_glob
memory_glob_prefix p k = rw (without_last-star p) refl

pub zero_differs : ¬ (("0" == "0") ≡ false)
zero_differs h = ground arith

module _ {V : Type 0} where
  unfoldable pub matching : String → List (String × Option (MemoryText V)) → List String
  matching p [] = []
  matching p ((k, o) ∷ rest) =
      let others = matching p rest in if memory_glob p k then k ∷ others else others

  pub matching_match :
      (p : String) (es : List (String × Option (MemoryText V))) (k : String)
      → any (λ j. j == k) (matching p es) ≡ true
      → memory_glob p k ≡ true
  unfolding matching
  matching_match p [] k h = absurd (ground arith)
  matching_match p ((j, o) ∷ rest) k h = elim (text_cases j k) [
    | inl (b, e) ↦ elim (Bool-cases (memory_glob p j)) [
      | inl g ↦ subst (λ z. memory_glob p z ≡ true) e g
      | inr g ↦ matching_match p rest k (ground arith)
    ]
    | inr (b, n) ↦ ground (arith, matching_match p rest k)
  ]

  pub matching_all :
      (p : String) (es : List (String × Option (MemoryText V))) (k : String)
      → is_some (lookup es k) ≡ true
      → memory_glob p k ≡ true
      → any (λ j. j == k) (matching p es) ≡ true
  unfolding matching
  matching_all p [] k h g = absurd (ground arith)
  matching_all p ((j, o) ∷ rest) k h g = elim (text_cases j k) [
    | inl (b, e) ↦ let g' = subst (λ z. memory_glob p z ≡ true) (sym e) g in ground arith
    | inr (b, n) ↦ ground (arith, matching_all p rest k)
  ]

abbrev pub upd : {A : Type 0} → (String → A) → String → A → String → A
upd f k v j = if k == j then v else f j

pub memory_sent :
    {A S : Type 0} (c : S → A × S) (s : S) {a : A} {s' : S}
    → ◌≡◌ {A = Option A × S} (some (c s).0, (c s).1) (some a, s')
    → c s ≡ (a, s')
memory_sent c s e = ground arith

module _ {V : Type 0} (beq : V → V → Bool) (beq_iff : (a b : V) → (beq a b ≡ true) ↔ (a ≡ b)) where
  abbrev pub same_text : MemoryText V → MemoryText V → Bool
  same_text (json v) (json w) = beq v w
  same_text (plain s) (plain t) = s == t
  same_text (counter m) (counter n) = eqb m n
  same_text _ _ = false

  pub same_text_iff : (a b : MemoryText V) → (same_text a b ≡ true) ↔ (a ≡ b)
  same_text_iff (json v) (json w) = ground (arith, beq_iff v w)
  same_text_iff (json v) (plain t) = ground arith
  same_text_iff (json v) (counter n) = ground arith
  same_text_iff (plain s) (plain t) = ground (arith, eq_iff s t)
  same_text_iff (plain s) (json w) = ground arith
  same_text_iff (plain s) (counter n) = ground arith
  same_text_iff (counter m) (counter n) = ground arith
  same_text_iff (counter m) (json w) = ground arith
  same_text_iff (counter m) (plain t) = ground arith

  pub number_next :
      (n : ℕ) (o : Option (MemoryText V)) → o ≡ some (counter n) → next_count o ≡ suc n
  number_next n o e = rw e

  pub none_next : (o : Option (MemoryText V)) → o ≡ none → next_count o ≡ 1
  none_next o e = rw e

  abbrev pub memory_redis : RedisClient V
  memory_redis = record {
    Text = MemoryText V;
    stringify = json;
    parse = parse_memory;
    raw = plain;
    number = counter;
    is_empty = λ _. false;
    same = same_text;
    parse-stringify = λ v. refl;
    stringify_filled = λ v. refl;
    same_iff = same_text_iff;
    Server = MemoryServer V;
    ready = λ _. true;
    cell = λ s. lookup s.entries;
    ttl = λ s. s.ttl;
    set = λ k v t s. record { entries = (k, some v) ∷ s.entries; ttl = upd s.ttl k (some t) };
    del = λ k s. record { entries = (k, none) ∷ s.entries; ttl = upd s.ttl k none };
    expire = λ k t s. record s { ttl = upd s.ttl k (some t) };
    incr = λ k s. (
      next_count (lookup s.entries k),
      record s { entries = (k, some (counter (next_count (lookup s.entries k)))) ∷ s.entries },
    );
    cell-set = λ k j v t s h. refl;
    ttl-set = λ k j v t s h. refl;
    cell-del = λ k j s. refl;
    cell-expire = λ k j t s h. refl;
    ttl-expire = λ k j t s h e. refl;
    incr-none = λ k s e. none_next (lookup s.entries k) e;
    incr-number = λ k n s e. number_next n (lookup s.entries k) e;
    cell-incr = λ k j s. refl;
    send = λ c s. (some (c s).0, (c s).1);
    send_lem = λ c s e. memory_sent c s e;
    glob = memory_glob;
    scan = λ p c s. ("0", matching p s.entries);
    covered = λ p c s k. any (λ j. j == k) (matching p s.entries) ≡ true;
    rounds_left = λ p c s. 0;
    glob_prefix = λ p k h. memory_glob_prefix p k;
    scan_matches = λ p c s k h. matching_match p s.entries k h;
    scan_start = λ p s k h g. matching_all p s.entries k h g;
    scan_next = λ p c s k h. inl h;
    scan_shrinks = λ p c s s' h fewer. absurd (zero_differs h);
  }

pub text_discrete : Discrete String
text_discrete s t = elim (text_cases s t) [ inl (_, p) ↦ yes p | inr (_, n) ↦ no n ]

abbrev pub decided : {P : Type 0} → Dec P → Bool
decided (yes _) = true
decided (no _) = false

pub decided_iff : {P : Type 0} (d : Dec P) → (decided d ≡ true) ↔ P
decided_iff (yes p) = (λ _. p, λ _. refl)
decided_iff (no n) = (λ h. absurd (ground arith), λ p. absurd (n p))

-- The same for values whose equality is decided.
abbrev pub discrete_redis : {V : Type 0} → Discrete V → RedisClient V
discrete_redis d = memory_redis (λ a b. decided (d a b)) (λ a b. decided_iff (d a b))
