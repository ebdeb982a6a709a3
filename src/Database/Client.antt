-- ===== src/Database/Client.antt =====
-- What apps/api relies on of Redis, of its client ioredis and of JSON. `V` is the type of the
-- JavaScript values that a service stores. A server command is a function on the server's state;
-- `send` is the way of a command to the server and of its reply back, which may fail.
use Prim.Native.Char.{code}
use Prim.Native.String.{◌++◌}
use text.Mathlib.Text.{starts_with}
use zhuo_stack.Prelude.{
  not, ◌&&◌, ◌||◌, eqb, List, any, is_some, ◌⊎◌, ℕ, suc, ◌<◌, ◌≡◌, ◌↔◌, Bool, true, false, Option,
  none, some, String, ◌==◌, if◌then◌else◌,
}

-- A text that stands for itself in a pattern of SCAN.
unfoldable pub is_plain : String → Bool
is_plain String.[] = true
is_plain (String.◌∷◌ c s) =
    let rest = is_plain s in
    not (
      eqb (code c) b'*'
      || (eqb (code c) b'?' || (eqb (code c) b'[' || (eqb (code c) b']' || eqb (code c) b'\\'))))
    && rest

pub record RedisClient (V : Type 0) : Type 1 where
  -- The texts that Redis stores: `JSON.stringify` of a value, a text as it stands, a counter.
  pub Text : Type 0
  pub stringify : V → Text
  pub parse : Text → Option V
  pub raw : String → Text
  pub number : ℕ → Text
  pub is_empty : Text → Bool
  pub same : Text → Text → Bool
  pub parse-stringify : (v : V) → parse (stringify v) ≡ some v
  pub stringify_filled : (v : V) → is_empty (stringify v) ≡ false
  pub same_iff : (a b : Text) → (same a b ≡ true) ↔ (a ≡ b)
  -- The server: a live key has a text, and perhaps a time to live, in seconds.
  pub Server : Type 0
  pub ready : Server → Bool
  pub cell : Server → String → Option Text
  pub ttl : Server → String → Option ℕ
  pub set : String → Text → ℕ → Server → Server
  pub del : String → Server → Server
  pub expire : String → ℕ → Server → Server
  pub incr : String → Server → ℕ × Server
  pub cell-set :
      (k j : String) (v : Text) (t : ℕ) (s : Server)
      → 0 < t
      → cell (set k v t s) j ≡ (if k == j then some v else cell s j)
  pub ttl-set :
      (k j : String) (v : Text) (t : ℕ) (s : Server)
      → 0 < t
      → ttl (set k v t s) j ≡ (if k == j then some t else ttl s j)
  pub cell-del :
      (k j : String) (s : Server) → cell (del k s) j ≡ (if k == j then none else cell s j)
  pub cell-expire : (k j : String) (t : ℕ) (s : Server) → 0 < t → cell (expire k t s) j ≡ cell s j
  pub ttl-expire :
      (k j : String) (t : ℕ) (s : Server) {v : Text}
      → 0 < t
      → cell s k ≡ some v
      → ttl (expire k t s) j ≡ (if k == j then some t else ttl s j)
  pub incr-none : (k : String) (s : Server) → cell s k ≡ none → (incr k s).0 ≡ 1
  pub incr-number :
      (k : String) (n : ℕ) (s : Server) → cell s k ≡ some (number n) → (incr k s).0 ≡ suc n
  pub cell-incr :
      (k j : String) (s : Server)
      → cell (incr k s).1 j ≡ (if k == j then some (number (incr k s).0) else cell s j)
  -- A reply that arrives is that of the command.
  pub send : {A : Type 0} → (Server → A × Server) → Server → Option A × Server
  pub send_lem :
      {A : Type 0} (c : Server → A × Server) (s : Server) {a : A} {s' : Server}
      → send c s ≡ (some a, s')
      → c s ≡ (a, s')
  -- SCAN: `scan pattern cursor` gives the next cursor and some keys, all of which match. The
  -- documentation of SCAN: a full iteration, from the cursor 0 back to 0, returns every matching
  -- key that is there from its start to its end, and it ends where no key is added meanwhile.
  -- `covered pattern cursor s k` says that an iteration that stands at the cursor is still to return
  -- `k`, and `rounds_left` bounds the calls that it still makes.
  pub glob : String → String → Bool
  pub scan : String → String → Server → String × List String
  pub covered : String → String → Server → String → Type 0
  pub rounds_left : String → String → Server → ℕ
  pub glob_prefix : (p k : String) → is_plain p ≡ true → glob (p ++ "*") k ≡ starts_with k p
  pub scan_matches :
      (p c : String) (s : Server) (k : String)
      → any (λ j. j == k) (scan p c s).1 ≡ true
      → glob p k ≡ true
  pub scan_start :
      (p : String) (s : Server) (k : String)
      → is_some (cell s k) ≡ true
      → glob p k ≡ true
      → covered p "0" s k
  pub scan_next :
      (p c : String) (s : Server) (k : String)
      → covered p c s k
      → (any (λ j. j == k) (scan p c s).1 ≡ true)
        ⊎ ((((scan p c s).0 == "0") ≡ false)
            × ((s' : Server) → is_some (cell s' k) ≡ true → covered p (scan p c s).0 s' k))
  pub scan_shrinks :
      (p c : String) (s s' : Server)
      → ((scan p c s).0 == "0") ≡ false
      → ((k : String) → is_some (cell s' k) ≡ true → is_some (cell s k) ≡ true)
      → rounds_left p (scan p c s).0 s' < rounds_left p c s
