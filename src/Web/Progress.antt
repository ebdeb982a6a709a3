-- ===== src/Web/Progress.antt =====
-- apps/web/src/stores/progress-store.ts: the bar that shows that requests are under way. Besides the
-- state of the store the model keeps the two timers: the interval that lets the bar grow, and the
-- timeout that hides it. What the browser does is an event: a tick of a running interval, or a
-- timeout that is due. JavaScript numbers and their arithmetic are a parameter.
pub mod Timers
mod Tests
use mathlib.Core.Option
use zhuo_stack.Prelude.{
  ℕ, zero, suc, ◌+◌, ◌-◌, Bool, true, false, not, ◌&&◌, Option, none, some, List, [], ◌∷◌,
  if◌then◌else◌, ltb, eqb, ◌≡◌,
}

-- `below_85` is `progress < 85`, `grown` is `progress + Math.max(1, (85 - progress) * 0.15)`.
pub record Numbers : Type 1 where
  pub Number : Type 0
  pub of_nat : ℕ → Number
  pub below_85 : Number → Bool
  pub grown : Number → Number

module _ (numbers : Numbers) where
  pub record ProgressState : Type 0 where
    pub active_requests : ℕ
    pub progress : numbers.Number
    pub visible : Bool
    pub timer : Bool
    pub reset_timer : Bool

  abbrev pub initial : ProgressState
  initial = record {
    active_requests = 0;
    progress = numbers.of_nat 0;
    visible = false;
    timer = false;
    reset_timer = false;
  }

  unfoldable pub start : ProgressState → ProgressState
  start s =
      let next = s.active_requests + 1 in
      let shown : ProgressState = record s {
        active_requests = next;
        visible = true;
        reset_timer = false;
      } in
      if eqb next 1 then record shown { progress = numbers.of_nat 25; timer = true } else shown

  -- `Math.max(0, activeRequests - 1)` is the subtraction of natural numbers.
  unfoldable pub done : ProgressState → ProgressState
  done s =
      let next = s.active_requests - 1 in
      let counted : ProgressState = record s { active_requests = next } in
      if eqb next 0
      then record counted { timer = false; progress = numbers.of_nat 100; reset_timer = true }
      else counted

  unfoldable pub set_progress : (numbers.Number → numbers.Number) → ProgressState → ProgressState
  set_progress f s = record s { progress = f s.progress }

  -- The callback of the interval.
  unfoldable pub tick : ProgressState → ProgressState
  tick s =
      if ltb 0 s.active_requests && numbers.below_85 s.progress
      then record s { progress = numbers.grown s.progress }
      else s

  -- The callback of the timeout.
  unfoldable pub expire : ProgressState → ProgressState
  expire s =
      if eqb s.active_requests 0
      then record s { visible = false; progress = numbers.of_nat 0; reset_timer = false }
      else record s { reset_timer = false }

  -- One step of the page: an action, or a timer that fires while it is set.
  pub data Step : ProgressState → ProgressState → Type 0 where
    started : {s : ProgressState} → Step s (start s)
    finished : {s : ProgressState} → Step s (done s)
    moved : {s : ProgressState} (f : numbers.Number → numbers.Number) → Step s (set_progress f s)
    ticked : {s : ProgressState} → s.timer ≡ true → Step s (tick s)
    expired : {s : ProgressState} → s.reset_timer ≡ true → Step s (expire s)

  pub data Reaches : ProgressState → ProgressState → Type 0 where
    here : {s : ProgressState} → Reaches s s
    then_step : {s t u : ProgressState} → Reaches s t → Step t u → Reaches s u
