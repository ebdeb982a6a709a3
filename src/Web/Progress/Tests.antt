-- ===== src/Web/Progress/Tests.antt =====
-- The progress bar over one request.
use zhuo_stack.Prelude.{ℕ, ◌+◌, ◌≡◌, refl, ltb, false}
use zhuo_stack.Web.Progress.{
  Numbers, initial, start, done, tick, expire, Reaches, here, then_step, started, finished, ticked,
  expired,
}
use zhuo_stack.Web.Progress.Timers.{IsConsistent, Reaches-IsConsistent}

-- Whole numbers, growing by one.
abbrev whole : Numbers
whole = record { Number = ℕ; of_nat = λ n. n; below_85 = λ n. ltb n 85; grown = λ n. n + 1 }

one_request :
    Reaches whole
      (initial whole)
      (expire whole (done whole (tick whole (start whole (initial whole)))))
unfolding start done tick
one_request =
    then_step (then_step (then_step (then_step here started) (ticked refl)) finished) (expired refl)

Reaches-IsConsistent_example :
    IsConsistent whole (expire whole (done whole (tick whole (start whole (initial whole)))))
Reaches-IsConsistent_example = Reaches-IsConsistent whole one_request

hidden_again :
    (expire whole (done whole (tick whole (start whole (initial whole))))).visible ≡ false
unfolding start done tick expire
hidden_again = refl
