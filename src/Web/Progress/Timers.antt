-- ===== src/Web/Progress/Timers.antt =====
-- The timers of apps/web/src/stores/progress-store.ts.
use zhuo_stack.Prelude.{◌<◌, ◌≡◌, refl, true, ◌&&◌, ltb, eqb, arith, Bool-cases, inl, inr}
use zhuo_stack.Web.Progress.{
  Numbers, ProgressState, initial, start, done, set_progress, tick, expire, Step, started, finished,
  moved, ticked, expired, Reaches, here, then_step,
}

module _ (numbers : Numbers) where
  -- The bar grows just while requests are under way; it is then shown and not about to hide. When
  -- none is under way and it is still shown, it is about to hide.
  pub record IsConsistent (s : ProgressState numbers) : Type 0 where
    pub grows : s.timer ≡ ltb 0 s.active_requests
    pub shown : 0 < s.active_requests → s.visible ≡ true
    pub stays : s.reset_timer ≡ true → s.active_requests ≡ 0
    pub hides : s.active_requests ≡ 0 → s.visible ≡ true → s.reset_timer ≡ true

  Step-IsConsistent :
      {s t : ProgressState numbers} → Step numbers s t → IsConsistent s → IsConsistent t
  unfolding start done set_progress tick expire
  Step-IsConsistent {s = s} started c = record {
    grows = ground (arith, c.grows);
    shown = λ h. ground arith;
    stays = λ h. absurd (ground arith);
    hides = λ h v. absurd (ground arith);
  }
  Step-IsConsistent {s = s} finished c = record {
    grows = ground (arith, c.grows);
    shown = λ h. ground (arith, c.shown);
    stays = λ h. ground (arith, c.stays);
    hides = λ h v. ground arith;
  }
  Step-IsConsistent (moved f) c = record {
    grows = c.grows;
    shown = c.shown;
    stays = c.stays;
    hides = c.hides;
  }
  Step-IsConsistent {s = s} (ticked on) c =
      elim (Bool-cases (ltb 0 s.active_requests && numbers.below_85 s.progress)) [
        | inl e ↦
            rw e (record { grows = c.grows; shown = c.shown; stays = c.stays; hides = c.hides })
        | inr e ↦ rw e c
      ]
  Step-IsConsistent {s = s} (expired on) c =
      let idle : eqb s.active_requests 0 ≡ true = ground (arith, c.stays) in
      rw idle (record {
        grows = c.grows;
        shown = λ h. absurd (ground (arith, c.stays));
        stays = λ h. absurd (ground arith);
        hides = λ h v. absurd (ground arith);
      })

  initial-IsConsistent : IsConsistent (initial numbers)
  initial-IsConsistent = record {
    grows = refl;
    shown = λ h. absurd (omega (arith, h));
    stays = λ h. absurd (ground arith);
    hides = λ h v. absurd (ground arith);
  }

  -- In every state that the page reaches, by actions and by timers that fire while they are set: the
  -- interval runs just while requests are under way, the bar is then shown and not about to hide,
  -- and a bar that is shown while none is under way is about to hide.
  pub Reaches-IsConsistent :
      {s : ProgressState numbers} → Reaches numbers (initial numbers) s → IsConsistent s
  Reaches-IsConsistent here = initial-IsConsistent
  Reaches-IsConsistent (then_step r e) = Step-IsConsistent e (Reaches-IsConsistent r)
