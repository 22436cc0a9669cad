-- ===== src/Timers.antt =====
-- LinuxTimerManager: include/adq/util/LinuxTimerManager.hpp, src/util/LinuxTimerManager.cpp.
pub mod Events
pub mod Orderly
pub mod Cancelled
use adq.Common.{
  ℕ, ℤ, pos, negsuc, zero, suc, ◌+◌, ◌*◌, ◌%◌, ◌^◌, ◌<◌, List, [], ◌∷◌, ◌++◌, Bool, true, false,
  ◌&&◌, Option, none, some, Result, ok, err, out_of_range, undefined, ltb, leb, if◌then◌else◌,
  contains, insert, ◌==◌, ◌>>=◌,
}

-- Where the callback thread is: before its next dequeue; past the unlock for an ID that it found not
-- cancelled; past that ID's callback.
pub data Thread : Type 0 where
  waiting : Thread
  unlocked : ℕ → Thread
  called : ℕ → Thread

-- `armed` is the kernel's: the timers that will still send their signal. The other fields are the
-- manager's own; a callback is of a type C.
pub record TimerManager (C : Type 0) : Type 0 where
  pub next_id : ℕ
  pub armed : List ℕ
  pub fired_timers : List ℕ
  pub timer_handles : List ℕ
  pub timer_callbacks : List (ℕ × C)
  pub cancelled_timers : List ℕ
  pub thread : Thread

-- The manager that the constructor makes.
abbrev pub empty_manager : {C : Type 0} → TimerManager C
empty_manager = record {
  next_id = 0;
  armed = [];
  fired_timers = [];
  timer_handles = [];
  timer_callbacks = [];
  cancelled_timers = [];
  thread = waiting;
}

unfoldable pub remove_id : ℕ → List ℕ → List ℕ
remove_id i [] = []
remove_id i (j ∷ js) = if j == i then remove_id i js else j ∷ remove_id i js

-- timer_settime refuses a tv_nsec that is negative (from 2 ^ 31 up, in these 32 bits) or not below
-- a second, and a zero value disarms the timer.
abbrev pub arms : ℕ → Bool
arms tv_nsec = ltb 0 tv_nsec && ltb tv_nsec 1000000000

module _ {C : Type 0} where
  unfoldable pub find_callback : ℕ → List (ℕ × C) → Option C
  find_callback i [] = none
  find_callback i ((j, c) ∷ m) = if j == i then some c else find_callback i m

  unfoldable pub remove_callback : ℕ → List (ℕ × C) → List (ℕ × C)
  remove_callback i [] = []
  remove_callback i ((j, c) ∷ m) =
      if j == i then remove_callback i m else (j, c) ∷ remove_callback i m

  -- The product delay_ms * 1000000 is that of a 32-bit `int`. It overflows above 2147 ms, which C++
  -- leaves undefined; the model keeps the low 32 bits. The result of timer_settime is not read.
  unfoldable pub register_timer : ℕ → C → TimerManager C → ℕ × TimerManager C
  register_timer delay_ms callback t =
      let tv_nsec = delay_ms * 1000000 % 2 ^ 32 in
      (
        t.next_id,
        record t {
          next_id = suc t.next_id;
          armed = if arms tv_nsec then t.next_id ∷ t.armed else t.armed;
          timer_handles = t.next_id ∷ t.timer_handles;
          timer_callbacks = (t.next_id, callback) ∷ t.timer_callbacks;
        },
      )

  unfoldable pub cancel_timer : ℤ → TimerManager C → TimerManager C
  cancel_timer (pos i) t =
      if contains t.timer_handles i
      then record t { cancelled_timers = insert i t.cancelled_timers }
      else t
  cancel_timer (negsuc i) t = t

  -- The kernel sends the signal of an armed timer, and the handler enqueues the timer's ID.
  unfoldable pub expire : ℕ → TimerManager C → TimerManager C
  unfolding remove_id
  expire i t =
      if contains t.armed i
      then record t { armed = remove_id i t.armed; fired_timers = t.fired_timers ++ i ∷ [] }
      else t

  -- The ID is no longer known to the manager.
  abbrev pub forget : ℕ → TimerManager C → TimerManager C
  forget i t = record t {
    timer_handles = remove_id i t.timer_handles;
    timer_callbacks = remove_callback i t.timer_callbacks;
  }

  -- callback_thread_main with a dequeued ID, under the lock.
  unfoldable pub dispatch : ℕ → TimerManager C → TimerManager C
  unfolding remove_id remove_callback
  dispatch i t =
      if contains t.cancelled_timers i
      then forget i (record t { cancelled_timers = remove_id i t.cancelled_timers })
      else record t { thread = unlocked i }

  -- The callback is called without the lock.
  unfoldable pub call : ℕ → Option C → TimerManager C → Result (Option C × TimerManager C)
  call i none t = err out_of_range
  call i (some c) t = ok (some c, record t { thread = called i })

  unfoldable pub dequeue : List ℕ → TimerManager C → TimerManager C
  unfolding dispatch
  dequeue [] t = t
  dequeue (i ∷ is) t = dispatch i (record t { fired_timers = is })

  -- The thread goes on to its next unlock, or to the end of a callback, or of a round of its loop:
  -- the callback that it has called, if any.
  unfoldable pub thread_step : Thread → TimerManager C → Result (Option C × TimerManager C)
  unfolding dequeue call find_callback
  thread_step waiting t = ok (none, dequeue t.fired_timers t)
  thread_step (unlocked i) t = call i (find_callback i t.timer_callbacks) t
  thread_step (called i) t = ok (none, forget i (record t { thread = waiting }))

  unfoldable pub callback_thread_step : TimerManager C → Result (Option C × TimerManager C)
  unfolding thread_step
  callback_thread_step t = thread_step t.thread t

  unfoldable pub finish_round : Thread → TimerManager C → Result (Option C × TimerManager C)
  unfolding thread_step
  finish_round (unlocked i) t = do
    (ran, after) ← thread_step (unlocked i) t
    (nothing, over) ← thread_step (called i) after
    ok (ran, over)
  finish_round _ t = ok (none, t)

  -- A whole round of the loop that nothing interrupts.
  unfoldable pub callback_round : TimerManager C → Result (Option C × TimerManager C)
  unfolding dequeue finish_round
  callback_round t = let next = dequeue t.fired_timers t in finish_round next.thread next
