-- ===== src/Timers/Events.antt =====
-- Histories of the timer manager: its calls, the expiries and the steps of the callback thread.
use adq.Common.{
  ℕ, ℤ, ◌+◌, ◌≤◌, List, [], ◌∷◌, ◌++◌, true, false, Option, some, Result, ok, if◌then◌else◌,
  contains, ◌==◌, ◌≡◌, arith, ◌>>=◌,
}
use adq.Timers.{
  TimerManager, remove_id, register_timer, cancel_timer, expire, callback_thread_step, Thread,
  waiting, unlocked, called,
}

-- What can happen to a timer manager: calls from the program, an expiry in the kernel, and a step
-- of the callback thread.
pub data Event (C : Type 0) : Type 0 where
  registers : ℕ → C → Event C
  cancels : ℤ → Event C
  expires : ℕ → Event C
  callback_thread : Event C

-- How often an ID occurs.
abbrev pub occurrences : ℕ → List ℕ → ℕ
occurrences i [] = 0
occurrences i (j ∷ js) = (if j == i then 1 else 0) + occurrences i js

-- Whether the callback thread is past the unlock for an ID, and will call its callback.
abbrev pub chooses : ℕ → Thread → ℕ
chooses i waiting = 0
chooses i (unlocked j) = if j == i then 1 else 0
chooses i (called j) = 0

pub occurrences-append :
    (i j : ℕ) (js : List ℕ)
    → occurrences i (js ++ j ∷ []) ≡ occurrences i js + (if j == i then 1 else 0)
occurrences-append i j [] = omega arith
occurrences-append i j (k ∷ js) = omega (arith, occurrences-append i j js)

pub occurrences-remove :
    (i j : ℕ) (js : List ℕ)
    → occurrences i (remove_id j js) ≡ (if j == i then 0 else occurrences i js)
unfolding remove_id
occurrences-remove i j [] = ground arith
occurrences-remove i j (k ∷ js) = ground (arith, occurrences-remove i j js)

pub contains-remove :
    (i j : ℕ) (js : List ℕ)
    → contains (remove_id j js) i ≡ (if j == i then false else contains js i)
unfolding remove_id
contains-remove i j [] = ground arith
contains-remove i j (k ∷ js) = ground (arith, contains-remove i j js)

pub occurs-contains : (i : ℕ) (js : List ℕ) → contains js i ≡ true → 1 ≤ occurrences i js
occurs-contains i [] h = cc
occurs-contains i (j ∷ js) h = ground (arith, occurs-contains i js)

pub occurrences-concat :
    (i : ℕ) (js ks : List ℕ) → occurrences i (js ++ ks) ≡ occurrences i js + occurrences i ks
occurrences-concat i [] ks = omega arith
occurrences-concat i (j ∷ js) ks = omega (arith, occurrences-concat i js ks)

module _ {C : Type 0} where
  -- The ID of the callback that a step of the callback thread has called.
  unfoldable pub ran_by : Option C → Thread → List ℕ
  ran_by (some c) (unlocked i) = i ∷ []
  ran_by o thread = []

  -- The IDs whose callbacks an event runs, and the state after it.
  unfoldable pub happen : Event C → TimerManager C → Result (List ℕ × TimerManager C)
  unfolding ran_by
  happen (registers delay_ms c) t = let (i, u) = register_timer delay_ms c t in ok ([], u)
  happen (cancels i) t = ok ([], cancel_timer i t)
  happen (expires i) t = ok ([], expire i t)
  happen callback_thread t = do (ran, u) ← callback_thread_step t; ok (ran_by ran t.thread, u)

  -- The IDs whose callbacks a history runs, in order.
  unfoldable pub history : List (Event C) → TimerManager C → Result (List ℕ × TimerManager C)
  history [] t = ok ([], t)
  history (e ∷ es) t = do (first, u) ← happen e t; (later, v) ← history es u; ok (first ++ later, v)
