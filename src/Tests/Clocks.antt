-- ===== src/Tests/Clocks.antt =====
-- The theorems on src/util/LinuxTimerManager.cpp at concrete inputs.
use adq.Common.{ℕ, pos, ◌≡◌, refl, arith, List, [], ◌∷◌, ok}
use adq.Timers.{
  TimerManager, empty_manager, register_timer, cancel_timer, expire, callback_thread_step, waiting,
  called,
}
use adq.Timers.Events.{
  Event, registers, cancels, expires, callback_thread, occurrences, happen, history,
}
use adq.Timers.Cancelled.{cancel_stops, long_timer_never_runs}

-- Two timers are set, and one of them goes off.
abbrev two_timers : TimerManager ℕ
two_timers = record {
  next_id = 2;
  armed = 1 ∷ [];
  fired_timers = 0 ∷ [];
  timer_handles = 1 ∷ 0 ∷ [];
  timer_callbacks = (1, 8) ∷ (0, 7) ∷ [];
  cancelled_timers = [];
  thread = waiting;
}

abbrev set_two : List (Event ℕ)
set_two = registers 100 7 ∷ registers 200 8 ∷ expires 0 ∷ []

set_two-history : history set_two empty_manager ≡ ok ([], two_timers)
unfolding history happen expire register_timer
set_two-history = refl

-- Both have had their turn.
abbrev served : TimerManager ℕ
served = record {
  next_id = 2;
  armed = [];
  fired_timers = [];
  timer_handles = [];
  timer_callbacks = [];
  cancelled_timers = [];
  thread = waiting;
}

later-history :
    history
      (callback_thread ∷ expires 1 ∷ callback_thread ∷ callback_thread ∷ callback_thread ∷ [])
      (cancel_timer (pos 0) two_timers)
    ≡ ok (1 ∷ [], served)
unfolding history cancel_timer happen callback_thread_step expire
later-history = refl

cancel_stops_example : occurrences 0 (1 ∷ []) ≡ 0
cancel_stops_example =
    cancel_stops set_two
      (callback_thread ∷ expires 1 ∷ callback_thread ∷ callback_thread ∷ callback_thread ∷ []) 0
      two_timers served [] (1 ∷ []) set_two-history refl (λ e. cc) later-history

-- The thread has found timer 0 uncancelled: to cancel it now comes too late.
late_cancel :
    history (callback_thread ∷ cancels (pos 0) ∷ callback_thread ∷ []) two_timers
    ≡ ok (
      0 ∷ [],
      record two_timers { fired_timers = []; cancelled_timers = 0 ∷ []; thread = called 0 },
    )
unfolding history cancel_timer happen callback_thread_step
late_cancel = refl

-- The manager with a timer of one second.
abbrev with_long : TimerManager ℕ
with_long = record {
  next_id = 1;
  armed = [];
  fired_timers = [];
  timer_handles = 0 ∷ [];
  timer_callbacks = (0, 7) ∷ [];
  cancelled_timers = [];
  thread = waiting;
}

with_long-register : register_timer 1000 7 empty_manager ≡ (0, with_long)
unfolding register_timer
with_long-register = refl

no_history : history {C = ℕ} [] empty_manager ≡ ok ([], empty_manager)
unfolding history
no_history = refl

waited : history (expires 0 ∷ callback_thread ∷ []) with_long ≡ ok ([], with_long)
unfolding history happen callback_thread_step expire
waited = refl

long_timer_never_runs_example : occurrences 0 [] ≡ 0
long_timer_never_runs_example =
    long_timer_never_runs [] (expires 0 ∷ callback_thread ∷ []) 1000 0 7 empty_manager with_long
      with_long [] [] no_history (omega arith) (omega arith) with_long-register waited
