-- ===== src/Timers/Orderly.antt =====
-- What holds of every timer manager.
use adq.Common.{
  ℕ, ℤ, pos, negsuc, ◌+◌, ◌<◌, ◌≤◌, List, [], ◌∷◌, true, Option, none, some, ok, contains, ◌≡◌,
  refl, ap, subst, inl, inr, arith, Bool-cases, >>=-eq-ok,
}
use adq.Timers.{
  TimerManager, empty_manager, find_callback, register_timer, cancel_timer, expire, forget,
  dispatch, dequeue, call, thread_step, callback_thread_step, Thread, waiting, unlocked, called,
}
use adq.Timers.Events.{
  Event, registers, cancels, expires, callback_thread, occurrences, occurrences-append,
  occurrences-remove, contains-remove, occurs-contains, chooses, happen, history,
}

module _ {C : Type 0} where
  -- What holds of every manager: an ID has one expiry to come at most, and only IDs given out do.
  pub record IsOrderly (t : TimerManager C) : Type 0 where
    pub once : (i : ℕ) → occurrences i t.armed + occurrences i t.fired_timers ≤ 1
    pub fresh :
        (i : ℕ)
        → t.next_id ≤ i
        → occurrences i t.armed + occurrences i t.fired_timers + chooses i t.thread ≡ 0
    pub handles : (i : ℕ) → contains t.timer_handles i ≡ true → i < t.next_id

  register-IsOrderly :
      (delay_ms : ℕ) (c : C) (t : TimerManager C)
      → IsOrderly t
      → IsOrderly (register_timer delay_ms c t).1
  unfolding register_timer
  register-IsOrderly delay_ms c t o = record {
    once = λ i. ground (arith, o.once i, o.fresh i, o.fresh t.next_id);
    fresh = λ i. ground (arith, o.fresh i);
    handles = λ i. ground (arith, o.handles i);
  }

  cancel-IsOrderly : (j : ℤ) (t : TimerManager C) → IsOrderly t → IsOrderly (cancel_timer j t)
  unfolding cancel_timer
  cancel-IsOrderly (negsuc j) t o = o
  cancel-IsOrderly (pos j) t o = record {
    once = λ i. ground (arith, o.once i);
    fresh = λ i. ground (arith, o.fresh i);
    handles = λ i. ground (arith, o.handles i);
  }

  expire-IsOrderly : (j : ℕ) (t : TimerManager C) → IsOrderly t → IsOrderly (expire j t)
  unfolding expire
  expire-IsOrderly j t o = record {
    once = λ i. ground (
      arith,
      o.once i,
      occurrences-append i j t.fired_timers,
      occurrences-remove i j t.armed,
      occurs-contains j t.armed,
      λ (e : j ≡ i). ap (λ (k : ℕ). occurrences k t.armed) e,
    );
    fresh = λ i. ground (
      arith,
      o.fresh i,
      occurrences-append i j t.fired_timers,
      occurrences-remove i j t.armed,
      occurs-contains j t.armed,
      λ (e : j ≡ i). ap (λ (k : ℕ). occurrences k t.armed) e,
    );
    handles = λ i. ground (arith, o.handles i);
  }

  dispatch-IsOrderly :
      (j : ℕ) (js : List ℕ) (t : TimerManager C)
      → t.fired_timers ≡ j ∷ js
      → IsOrderly t
      → IsOrderly (dispatch j (record t { fired_timers = js }))
  unfolding dispatch
  dispatch-IsOrderly j js t q w =
      let queue = λ (i : ℕ). ap (occurrences i) q in
      elim (Bool-cases (contains t.cancelled_timers j)) [
        | inl cancelled ↦
            rw (dispatch, cancelled)
              (record {
                once = λ i. ground (arith, w.once i, queue i);
                fresh = λ i. ground (arith, w.fresh i, queue i);
                handles = λ i. ground (arith, w.handles i, contains-remove i j t.timer_handles);
              })
        | inr live ↦
            rw (dispatch, live)
              (record {
                once = λ i. ground (arith, w.once i, queue i);
                fresh = λ i. ground (arith, w.fresh i, queue i);
                handles = λ i. ground (arith, w.handles i);
              })
      ]

  dequeue-IsOrderly :
      (queue : List ℕ) (t : TimerManager C)
      → t.fired_timers ≡ queue
      → IsOrderly t
      → IsOrderly (dequeue queue t)
  unfolding dequeue
  dequeue-IsOrderly [] t q w = w
  dequeue-IsOrderly (j ∷ js) t q w = dispatch-IsOrderly j js t q w

  forget-IsOrderly :
      (j : ℕ) (t : TimerManager C)
      → IsOrderly t
      → IsOrderly (forget j (record t { thread = waiting }))
  forget-IsOrderly j t w = record {
    once = λ i. ground (arith, w.once i);
    fresh = λ i. ground (arith, w.fresh i);
    handles = λ i. ground (arith, w.handles i, contains-remove i j t.timer_handles);
  }

  call-IsOrderly :
      (j : ℕ) (o' o : Option C) (t u : TimerManager C)
      → IsOrderly t
      → call j o' t ≡ ok (o, u)
      → IsOrderly u
  unfolding call
  call-IsOrderly j none o t u w e = cc
  call-IsOrderly j (some c) o t u w e =
      let same : record t { thread = called j } ≡ u = ground arith in
      subst IsOrderly same (record {
        once = λ i. ground (arith, w.once i);
        fresh = λ i. ground (arith, w.fresh i);
        handles = λ i. ground (arith, w.handles i);
      })

  step-IsOrderly :
      (thread : Thread) (t u : TimerManager C) (o : Option C)
      → IsOrderly t
      → thread_step thread t ≡ ok (o, u)
      → IsOrderly u
  unfolding thread_step
  step-IsOrderly waiting t u o w e =
      let same : dequeue t.fired_timers t ≡ u = ground arith in
      subst IsOrderly same (dequeue-IsOrderly t.fired_timers t refl w)
  step-IsOrderly (unlocked j) t u o w e =
      call-IsOrderly j (find_callback j t.timer_callbacks) o t u w e
  step-IsOrderly (called j) t u o w e =
      let same : forget j (record t { thread = waiting }) ≡ u = ground arith in
      subst IsOrderly same (forget-IsOrderly j t w)

  happen-IsOrderly :
      (event : Event C) (t u : TimerManager C) (ran : List ℕ)
      → IsOrderly t
      → happen event t ≡ ok (ran, u)
      → IsOrderly u
  unfolding happen
  happen-IsOrderly (registers delay_ms c) t u ran w e =
      let same : (register_timer delay_ms c t).1 ≡ u = ground arith in
      subst IsOrderly same (register-IsOrderly delay_ms c t w)
  happen-IsOrderly (cancels j) t u ran w e =
      let same : cancel_timer j t ≡ u = ground arith in
      subst IsOrderly same (cancel-IsOrderly j t w)
  happen-IsOrderly (expires i) t u ran w e =
      let same : expire i t ≡ u = ground arith in subst IsOrderly same (expire-IsOrderly i t w)
  happen-IsOrderly callback_thread t u ran w e =
      let (r, e₁, e₂) = >>=-eq-ok (callback_thread_step t) _ e in
      let same : r.1 ≡ u = ground arith in
      subst IsOrderly same (step-IsOrderly t.thread t r.1 r.0 w (unfold callback_thread_step in e₁))

  pub history-IsOrderly :
      (events : List (Event C)) (t u : TimerManager C) (ran : List ℕ)
      → IsOrderly t
      → history events t ≡ ok (ran, u)
      → IsOrderly u
  unfolding history
  history-IsOrderly [] t u ran w e = let same : t ≡ u = ground arith in subst IsOrderly same w
  history-IsOrderly (event ∷ events) t u ran w e =
      let (first, e₁, e₂) = >>=-eq-ok (happen event t) _ e in
      let (later, e₃, e₄) = >>=-eq-ok (history events first.1) _ e₂ in
      let same : later.1 ≡ u = ground arith in
      subst IsOrderly same (
        history-IsOrderly events first.1 later.1 later.0
          (happen-IsOrderly event t first.1 first.0 w e₁) e₃)

  pub empty-IsOrderly : IsOrderly empty_manager
  empty-IsOrderly = record { once = λ i. ground arith; fresh = λ i h. refl; handles = λ i h. cc }
