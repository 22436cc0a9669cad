-- ===== src/Timers/Cancelled.antt =====
-- Which callbacks the timer thread runs.
use adq.Common.{
  ℕ, ℤ, pos, negsuc, ◌+◌, ◌<◌, ◌≤◌, List, [], ◌∷◌, ◌++◌, true, Option, none, some, ok, contains,
  contains-insert, ◌≡◌, ◌≢◌, refl, sym, ap, subst, ◌∙◌, ◌⊎◌, inl, inr, arith, Bool-cases, >>=-eq-ok,
}
use adq.Timers.{
  TimerManager, empty_manager, find_callback, register_timer, cancel_timer, expire, forget,
  dispatch, dequeue, call, thread_step, callback_thread_step, Thread, waiting, unlocked, called,
}
use adq.Timers.Events.{
  Event, registers, cancels, expires, callback_thread, occurrences, occurrences-append,
  occurrences-remove, contains-remove, occurs-contains, occurrences-concat, chooses, ran_by, happen,
  history,
}
use adq.Timers.Orderly.{history-IsOrderly, empty-IsOrderly}

chooses-none : (i : ℕ) (thread : Thread) → thread ≢ unlocked i → chooses i thread ≡ 0
chooses-none i waiting h = refl
chooses-none i (unlocked j) h = let other : j ≢ i = λ e. h (ap unlocked e) in ground (arith, other)
chooses-none i (called j) h = refl

module _ {C : Type 0} where
  -- A timer that will not run: it is cancelled, with one expiry to come at most, or has none.
  pub record IsDead (i : ℕ) (t : TimerManager C) : Type 0 where
    pub old : i < t.next_id
    pub not_chosen : chooses i t.thread ≡ 0
    pub dead :
        ((contains t.cancelled_timers i ≡ true)
          × (occurrences i t.armed + occurrences i t.fired_timers ≤ 1))
        ⊎ (occurrences i t.armed + occurrences i t.fired_timers ≡ 0)

  register-IsDead :
      (i delay_ms : ℕ) (c : C) (t : TimerManager C)
      → IsDead i t
      → IsDead i (register_timer delay_ms c t).1
  unfolding register_timer
  register-IsDead i delay_ms c t d = ground (arith, d)

  cancel-IsDead : (i : ℕ) (j : ℤ) (t : TimerManager C) → IsDead i t → IsDead i (cancel_timer j t)
  unfolding cancel_timer
  cancel-IsDead i (negsuc j) t d = d
  cancel-IsDead i (pos j) t d = ground (arith, d, contains-insert t.cancelled_timers j i)

  expire-IsDead : (i j : ℕ) (t : TimerManager C) → IsDead i t → IsDead i (expire j t)
  unfolding expire
  expire-IsDead i j t d = ground (
    arith,
    d,
    occurrences-append i j t.fired_timers,
    occurrences-remove i j t.armed,
    occurs-contains j t.armed,
    λ (e : j ≡ i). ap (λ (k : ℕ). occurrences k t.armed) e,
  )

  -- The callback thread with a dequeued ID j.
  dispatch-IsDead :
      (i j : ℕ) (js : List ℕ) (t : TimerManager C)
      → t.fired_timers ≡ j ∷ js
      → IsDead i t
      → IsDead i (dispatch j (record t { fired_timers = js }))
  unfolding dispatch
  dispatch-IsDead i j js t q d =
      let queue = ap (occurrences i) q in
      let known = λ (h : j ≡ i). ap (contains t.cancelled_timers) h in
      elim (Bool-cases (contains t.cancelled_timers j)) [
        | inl cancelled ↦
            rw (dispatch, cancelled)
              (record {
                old = d.old;
                not_chosen = d.not_chosen;
                dead = ground (arith, d, queue, contains-remove i j t.cancelled_timers);
              })
        | inr live ↦
            let other : j ≢ i = λ h. ground (arith, d, queue, known h) in
            rw (dispatch, live)
              (record {
                old = d.old;
                not_chosen = ground (arith, other);
                dead = ground (arith, d, queue, other);
              })
      ]

  dequeue-IsDead :
      (i : ℕ) (queue : List ℕ) (t : TimerManager C)
      → t.fired_timers ≡ queue
      → IsDead i t
      → IsDead i (dequeue queue t)
  unfolding dequeue
  dequeue-IsDead i [] t q d = d
  dequeue-IsDead i (j ∷ js) t q d = dispatch-IsDead i j js t q d

  -- The callback that is called is that of another ID.
  call-IsDead :
      (i j : ℕ) (found o : Option C) (t u : TimerManager C)
      → t.thread ≡ unlocked j
      → IsDead i t
      → call j found t ≡ ok (o, u)
      → IsDead i u × (occurrences i (ran_by o (unlocked j)) ≡ 0)
  unfolding call ran_by
  call-IsDead i j none o t u chosen d e = cc
  call-IsDead i j (some c) o t u chosen d e =
      let after : record t { thread = called j } ≡ u = ground arith in
      let run : some c ≡ o = ground arith in
      let other : chooses i (unlocked j) ≡ 0 = subst (λ k. chooses i k ≡ 0) chosen d.not_chosen in
      (
        subst (IsDead i) after (record { old = d.old; not_chosen = refl; dead = d.dead }),
        rw⁻¹ run (ground (arith, other)),
      )

  step-IsDead :
      (i : ℕ) (thread : Thread) (t u : TimerManager C) (o : Option C)
      → t.thread ≡ thread
      → IsDead i t
      → thread_step thread t ≡ ok (o, u)
      → IsDead i u × (occurrences i (ran_by o thread) ≡ 0)
  unfolding thread_step ran_by
  step-IsDead i waiting t u o place d e =
      let same : dequeue t.fired_timers t ≡ u = ground arith in
      let not_run : none ≡ o = ground arith in
      (subst (IsDead i) same (dequeue-IsDead i t.fired_timers t refl d), rw⁻¹ not_run refl)
  step-IsDead i (unlocked j) t u o place d e =
      call-IsDead i j (find_callback j t.timer_callbacks) o t u place d e
  step-IsDead i (called j) t u o place d e =
      let same : forget j (record t { thread = waiting }) ≡ u = ground arith in
      let not_run : none ≡ o = ground arith in
      (
        subst (IsDead i) same (record { old = d.old; not_chosen = refl; dead = d.dead }),
        rw⁻¹ not_run refl,
      )

  happen-IsDead :
      (i : ℕ) (event : Event C) (t u : TimerManager C) (ran : List ℕ)
      → IsDead i t
      → happen event t ≡ ok (ran, u)
      → IsDead i u × (occurrences i ran ≡ 0)
  unfolding happen
  happen-IsDead i (registers delay_ms c) t u ran d e =
      let same : (register_timer delay_ms c t).1 ≡ u = ground arith in
      let none_ran : [] ≡ ran = ground arith in
      (subst (IsDead i) same (register-IsDead i delay_ms c t d), ap (occurrences i) (sym none_ran))
  happen-IsDead i (cancels j) t u ran d e =
      let same : cancel_timer j t ≡ u = ground arith in
      let none_ran : [] ≡ ran = ground arith in
      (subst (IsDead i) same (cancel-IsDead i j t d), ap (occurrences i) (sym none_ran))
  happen-IsDead i (expires j) t u ran d e =
      let same : expire j t ≡ u = ground arith in
      let none_ran : [] ≡ ran = ground arith in
      (subst (IsDead i) same (expire-IsDead i j t d), ap (occurrences i) (sym none_ran))
  happen-IsDead i callback_thread t u ran d e =
      let (r, e₁, e₂) = >>=-eq-ok (callback_thread_step t) _ e in
      let after = step-IsDead i t.thread t r.1 r.0 refl d (unfold callback_thread_step in e₁) in
      let same : r.1 ≡ u = ground arith in
      let these : ran_by r.0 t.thread ≡ ran = ground arith in
      (subst (IsDead i) same after.0, ap (occurrences i) (sym these) ∙ after.1)

  history-IsDead :
      (i : ℕ) (events : List (Event C)) (t u : TimerManager C) (ran : List ℕ)
      → IsDead i t
      → history events t ≡ ok (ran, u)
      → occurrences i ran ≡ 0
  unfolding history
  history-IsDead i [] t u ran d e =
      let none_ran : [] ≡ ran = ground arith in ap (occurrences i) (sym none_ran)
  history-IsDead i (event ∷ events) t u ran d e =
      let (first, e₁, e₂) = >>=-eq-ok (happen event t) _ e in
      let (later, e₃, e₄) = >>=-eq-ok (history events first.1) _ e₂ in
      let (d', none_first) = happen-IsDead i event t first.1 first.0 d e₁ in
      let none_later = history-IsDead i events first.1 later.1 later.0 d' e₃ in
      let whole : first.0 ++ later.0 ≡ ran = ground arith in
      ap (occurrences i) (sym whole)
      ∙ occurrences-concat i first.0 later.0
      ∙ omega (arith, none_first, none_later)

  -- When a program cancels a timer whose ID the manager still knows, after any history, and the
  -- callback thread is not already past the unlock for that ID, then no later history runs its
  -- callback, whatever else is registered, cancelled or expires in it.
  pub cancel_stops :
      (before after : List (Event C)) (i : ℕ) (t u : TimerManager C) (ran_before ran_after : List ℕ)
      → history before empty_manager ≡ ok (ran_before, t)
      → contains t.timer_handles i ≡ true
      → t.thread ≢ unlocked i
      → history after (cancel_timer (pos i) t) ≡ ok (ran_after, u)
      → occurrences i ran_after ≡ 0
  unfolding cancel_timer
  cancel_stops before after i t u ran_before ran_after e₁ known not_yet e₂ =
      let w = history-IsOrderly before empty_manager t ran_before empty-IsOrderly e₁ in
      history-IsDead i after (cancel_timer (pos i) t) u ran_after
        (record {
          old = ground (arith, w.handles i known);
          not_chosen = rw (cancel_timer, known) (chooses-none i t.thread not_yet);
          dead = ground (arith, w.once i, known, contains-insert t.cancelled_timers i i);
        })
        e₂

  -- A timer of 1000 to 4294 milliseconds, registered after any history, never runs, whatever
  -- happens later: timer_settime refuses its nanoseconds, and register_timer does not notice.
  pub long_timer_never_runs :
      (before after : List (Event C)) (delay_ms i : ℕ) (callback : C) (t u v : TimerManager C)
      (ran_before ran_after : List ℕ)
      → history before empty_manager ≡ ok (ran_before, t)
      → 1000 ≤ delay_ms
      → delay_ms ≤ 4294
      → register_timer delay_ms callback t ≡ (i, u)
      → history after u ≡ ok (ran_after, v)
      → occurrences i ran_after ≡ 0
  unfolding register_timer
  long_timer_never_runs before after delay_ms i callback t u v ran_before ran_after e₁ low high e₂
        e₃ =
      let w = history-IsOrderly before empty_manager t ran_before empty-IsOrderly e₁ in
      history-IsDead i after u v ran_after
        (record {
          old = ground (arith, low);
          not_chosen = ground (arith, low, w.fresh t.next_id);
          dead = ground (arith, low, w.fresh t.next_id);
        })
        e₃
