-- ===== src/Tests/Meters.antt =====
-- The theorems on src/apps/smart_meters/SimSmartMeter.cpp at concrete inputs.
use adq.Common.{
  ℕ, ◌≡◌, refl, arith, Bool, true, false, List, [], ◌∷◌, ◌++◌, ok, err, undefined, ◌<◌, ◌⊎◌, ◌+◌,
  ◌*◌, ◌≤◌,
}
use adq.Meter.{FixedPoint, Device, DeviceState, run_device, run_cycles, run_cycle}
use adq.Meter.Cycles.{minutes_left, InCycle}
use adq.Meter.Running.{run_device_minutes}
use adq.Meter.Simulation.{
  simulate_devices, step_nonshiftable, write_elem, new_meter, fresh_state, simulate_usage_timestep,
}
use adq.Meter.Start.{first_timestep_fails}
use adq.Meter.Vectors.{sum_vectors, sum_vectors-append}

abbrev watts : ℕ → FixedPoint
watts n = record { m = n * 0x8000 }

abbrev washer : Device
washer = record {
  name = 119 ∷ 97 ∷ 115 ∷ 104 ∷ [];
  load_per_cycle = watts 500 ∷ watts 200 ∷ [];
  time_per_cycle = 20 ∷ 25 ∷ [];
  standby_load = watts 1;
}

-- Ten minutes into the first cycle.
abbrev washing : DeviceState
washing = record fresh_state { is_on = true; time_in_current_cycle = 10 }

-- 35 minutes are left; after 30 of them the washer is 20 minutes into its second cycle.
washer_runs :
    run_device 30 washer washing
    ≡ ok (
      record fresh_state { is_on = true; current_cycle_num = 1; time_in_current_cycle = 20 },
      record { m = 4914900 },
    )
unfolding run_device run_cycles run_cycle
washer_runs = refl

run_device_minutes_example :
    (out : DeviceState × FixedPoint) × (run_device 30 washer washing ≡ ok out)
    × (((minutes_left washer washing ≤ 30)
          × (out.0.is_on ≡ false)
          × (out.0.current_cycle_num ≡ 0)
          × (out.0.time_in_current_cycle ≡ 0))
        ⊎ ((30 < minutes_left washer washing)
            × (out.0.is_on ≡ true)
            × InCycle washer out.0
            × (minutes_left washer out.0 + 30 ≡ minutes_left washer washing)))
run_device_minutes_example =
    run_device_minutes 30 washer washing
      (record { aligned = refl; positive = (omega arith, (omega arith, tt)) })
      (record { cycle_time = 20; this_cycle = refl; not_over = omega arith })

-- Draws that always switch on.
abbrev always : Device → Bool → ℕ → ℕ → Bool × ℕ
always device weekend hour draws = (true, draws + 1)

first_timestep_fails_example :
    let meter = new_meter (washer ∷ []) in
    (fixed : List (Device × DeviceState) × FixedPoint × ℕ) × (simulate_devices
        (step_nonshiftable 30 always 0)
        meter.nonshiftable_devices
        0
      ≡ ok fixed)
    × (write_elem meter.consumption 0 fixed.1 ≡ err undefined)
    × (simulate_usage_timestep 30 always meter 0 ≡ err undefined)
first_timestep_fails_example =
    first_timestep_fails 30 always (washer ∷ []) 0
      ((record { aligned = refl; positive = (omega arith, (omega arith, tt)) }, omega arith), tt)

sum_vectors-append_example :
    (a : List FixedPoint) × (b : List FixedPoint) × (c : List FixedPoint) × (sum_vectors
        ((watts 1 ∷ watts 2 ∷ []) ∷ [])
      ≡ ok a)
    × (sum_vectors ((watts 3 ∷ watts 4 ∷ []) ∷ (watts 5 ∷ watts 6 ∷ []) ∷ []) ≡ ok b)
    × (sum_vectors (a ∷ b ∷ []) ≡ ok c)
    × (sum_vectors (
          ((watts 1 ∷ watts 2 ∷ []) ∷ [])
          ++ ((watts 3 ∷ watts 4 ∷ []) ∷ (watts 5 ∷ watts 6 ∷ []) ∷ []))
        ≡ ok c)
sum_vectors-append_example =
    sum_vectors-append 2 (watts 1 ∷ watts 2 ∷ []) (watts 3 ∷ watts 4 ∷ []) []
      ((watts 5 ∷ watts 6 ∷ []) ∷ []) (refl, tt) (refl, (refl, tt))
