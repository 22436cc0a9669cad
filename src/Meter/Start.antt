-- ===== src/Meter/Start.antt =====
-- What the first timestep and the weekends of src/apps/smart_meters/SimSmartMeter.cpp come to.
use adq.Common.{
  ℕ, ◌%◌, ◌<◌, ◌≡◌, refl, Bool, true, false, ◌||◌, ◌==◌, List, [], ◌∷◌, ok, err, undefined, arith,
  negsuc, pos, length, Bool-cases, inl, inr,
}
use adq.Meter.{FixedPoint, Device, DeviceState, run_device, ◌+ᶠ◌, ◌*ᶠ◌, hours}
use adq.Meter.Cycles.{IsAligned, cycle_start}
use adq.Meter.Running.{run_device_minutes}
use adq.Meter.Simulation.{
  conditioner, occurs_in, fresh_state, SimSmartMeter, new_meter, add_device, write_elem, day, hour,
  to_int, is_weekend, step_nonshiftable, simulate_devices, simulate_usage_timestep,
}

module _ {Engine : Type 0} (timestep_min : ℕ)
    (start : Device → Bool → ℕ → Engine → Bool × Engine) where
  or_false : (b : Bool) → (b || false) ≡ b
  or_false true = refl
  or_false false = refl

  day_of_bit : (b : Bool) → timestep_min < 1440 → day timestep_min (to_int b) ≡ 0
  day_of_bit true h = omega arith
  day_of_bit false h = omega arith

  -- With timesteps of less than a day, the only day of the week that the simulation takes for a
  -- weekend is day 5: the test for day 6 never holds.
  weekend_is_day_5 :
      (time : ℕ)
      → timestep_min < 1440
      → is_weekend timestep_min start time ≡ (day timestep_min time % 7 == 5)
  unfolding is_weekend
  weekend_is_day_5 time h =
      let bit = day_of_bit (time % 7 == 6) h in
      rw (is_weekend, bit) (or_false (day timestep_min time % 7 == 5))

  -- A device whose program can be run: it has cycles, each with its load and time.
  abbrev pub IsRunnable : Device → Type 0
  IsRunnable device = IsAligned device × (0 < length device.time_per_cycle)

  abbrev pub AllRunnable : List Device → Type 0
  AllRunnable [] = Unit {0}
  AllRunnable (d ∷ devices) = IsRunnable d × AllRunnable devices

  abbrev AllFresh : List (Device × DeviceState) → Type 0
  AllFresh [] = Unit {0}
  AllFresh (pair ∷ pairs) = (IsRunnable pair.0 × (pair.1 ≡ fresh_state)) × AllFresh pairs

  record IsNew (meter : SimSmartMeter) : Type 0 where
    readings : meter.consumption ≡ []
    before_start : meter.current_timestep ≡ negsuc 0
    devices : AllFresh meter.nonshiftable_devices

  add_device-IsNew :
      (d : Device) (meter : SimSmartMeter) → IsRunnable d → IsNew meter → IsNew (add_device d meter)
  unfolding add_device
  add_device-IsNew d meter runnable new = elim (Bool-cases (occurs_in conditioner d.name)) [
    | inl shiftable ↦
        rw (add_device, shiftable)
          (record {
            readings = new.readings;
            before_start = new.before_start;
            devices = new.devices;
          })
    | inr other ↦
        rw (add_device, other)
          (record {
            readings = new.readings;
            before_start = new.before_start;
            devices = ((runnable, refl), new.devices);
          })
  ]

  new_meter-IsNew : (devices : List Device) → AllRunnable devices → IsNew (new_meter devices)
  unfolding new_meter
  new_meter-IsNew [] all = record { readings = refl; before_start = refl; devices = tt }
  new_meter-IsNew (d ∷ devices) all =
      add_device-IsNew d (new_meter devices) all.0 (new_meter-IsNew devices all.1)

  -- A device at the start of its program is run without an error.
  run_first :
      (device : Device) (s : DeviceState)
      → IsRunnable device
      → s.current_cycle_num ≡ 0
      → s.time_in_current_cycle ≡ 0
      → (out : DeviceState × FixedPoint) × (run_device timestep_min device s ≡ ok out)
  run_first device s (good, some_cycle) first start_of_it =
      let inside = cycle_start device good s start_of_it (omega (arith, first, some_cycle)) in
      let (out, runs, _) = run_device_minutes timestep_min device s good inside in (out, runs)

  step_fresh :
      (time : ℕ) (device : Device) (engine : Engine)
      → IsRunnable device
      → (out : DeviceState × FixedPoint × Engine) × (step_nonshiftable timestep_min start time
            device fresh_state engine
          ≡ ok out)
  unfolding step_nonshiftable
  step_fresh time device engine runnable =
      let drawn =
        start device (is_weekend timestep_min start time) (hour timestep_min time % 24) engine in
      let standby = device.standby_load *ᶠ hours timestep_min in
      elim (Bool-cases drawn.0) [
        | inl on ↦
            let (run, runs) =
              run_first device (record fresh_state { is_on = true; start_time = pos time }) runnable
                refl refl in
            ((run.0, run.1 +ᶠ standby, drawn.1), rw (step_nonshiftable, on, runs) refl)
        | inr off ↦ ((fresh_state, standby, drawn.1), rw (step_nonshiftable, off) refl)
      ]

  simulate_fresh :
      (time : ℕ) (pairs : List (Device × DeviceState)) (engine : Engine)
      → AllFresh pairs
      → (out : List (Device × DeviceState) × FixedPoint × Engine) × (simulate_devices
            (step_nonshiftable timestep_min start time)
            pairs
            engine
          ≡ ok out)
  unfolding simulate_devices
  simulate_fresh time [] engine all = (_, refl)
  simulate_fresh time (pair ∷ pairs) engine all =
      let (here, steps) = step_fresh time pair.0 engine all.0.0 in
      let (later, rest) = simulate_fresh time pairs here.2 all.1 in
      (
        ((pair.0, here.0) ∷ later.0, here.1 +ᶠ later.1, later.2),
        rw (simulate_devices, all.0.1, steps, rest) refl,
      )

  write_elem_empty :
      (v : List FixedPoint) (i : ℕ) (x : FixedPoint) → v ≡ [] → write_elem v i x ≡ err undefined
  unfolding write_elem
  write_elem_empty [] i x e = refl
  write_elem_empty (y ∷ v) i x e = cc

  -- In the first timestep of a new meter whose devices have cycles, with a load and a time that is
  -- not 0 for each, the power of its non-shiftable devices is found, and then its reading is written
  -- past the end of a vector that nothing has made longer: this is undefined.
  pub first_timestep_fails :
      (devices : List Device) (engine : Engine)
      → AllRunnable devices
      → let meter = new_meter devices in
        (fixed : List (Device × DeviceState) × FixedPoint × Engine) × (simulate_devices
            (step_nonshiftable timestep_min start 0)
            meter.nonshiftable_devices
            engine
          ≡ ok fixed)
        × (write_elem meter.consumption 0 fixed.1 ≡ err undefined)
        × (simulate_usage_timestep timestep_min start meter engine ≡ err undefined)
  unfolding simulate_usage_timestep
  first_timestep_fails devices engine all =
      let meter = new_meter devices in
      let new = new_meter-IsNew devices all in
      let (fixed, simulated) = simulate_fresh 0 meter.nonshiftable_devices engine new.devices in
      let past_end = write_elem_empty meter.consumption 0 fixed.1 new.readings in
      (
        fixed,
        simulated,
        past_end,
        rw (simulate_usage_timestep, new.before_start, simulated, past_end) refl,
      )
