-- ===== src/Meter/Simulation.antt =====
-- The timesteps of src/apps/smart_meters/SimSmartMeter.cpp, and the calendar of SimTimesteps.hpp.
use adq.Common.{
  ℕ, zero, suc, ◌+◌, ◌*◌, ◌/◌, ◌%◌, Bool, true, false, not, ◌&&◌, ◌||◌, leb, ◌==◌, if◌then◌else◌,
  List, [], ◌∷◌, map, ℤ, pos, negsuc, ◌==ℤ◌, suc_ℤ, Result, ok, err, undefined, ◌>>=◌,
}
use adq.Meter.{FixedPoint, fixed_zero, ◌+ᶠ◌, ◌*ᶠ◌, hours, Device, DeviceState, run_device, elem_at}

-- Characters: is `needle` at the start of `text`, or anywhere in it?
abbrev pub is_prefix : List ℕ → List ℕ → Bool
is_prefix [] text = true
is_prefix (c ∷ needle) [] = false
is_prefix (c ∷ needle) (d ∷ text) = c == d && is_prefix needle text

abbrev pub occurs_in : List ℕ → List ℕ → Bool
occurs_in needle [] = is_prefix needle []
occurs_in needle (c ∷ text) = is_prefix needle (c ∷ text) || occurs_in needle text

-- "conditioner"
abbrev pub conditioner : List ℕ
conditioner = 99 ∷ 111 ∷ 110 ∷ 100 ∷ 105 ∷ 116 ∷ 105 ∷ 111 ∷ 110 ∷ 101 ∷ 114 ∷ []

-- DeviceState{}
abbrev pub fresh_state : DeviceState
fresh_state = record {
  start_time = pos 0;
  scheduled_start_time = pos 0;
  is_on = false;
  current_cycle_num = 0;
  time_in_current_cycle = 0;
}

pub record SimSmartMeter : Type 0 where
  pub shiftable_devices : List (Device × DeviceState)
  pub nonshiftable_devices : List (Device × DeviceState)
  pub current_timestep : ℤ
  pub consumption : List FixedPoint
  pub shiftable_consumption : List FixedPoint

unfoldable pub add_device : Device → SimSmartMeter → SimSmartMeter
add_device device meter =
    if occurs_in conditioner device.name
    then record meter { shiftable_devices = (device, fresh_state) ∷ meter.shiftable_devices }
    else record meter { nonshiftable_devices = (device, fresh_state) ∷ meter.nonshiftable_devices }

-- The constructor, which leaves both vectors of readings empty.
unfoldable pub new_meter : List Device → SimSmartMeter
new_meter [] = record {
  shiftable_devices = [];
  nonshiftable_devices = [];
  current_timestep = negsuc 0;
  consumption = [];
  shiftable_consumption = [];
}
new_meter (device ∷ owned_devices) = add_device device (new_meter owned_devices)

-- A vector's `v[i] = x`.
unfoldable pub write_elem : List FixedPoint → ℕ → FixedPoint → Result (List FixedPoint)
write_elem [] i x = err undefined
write_elem (y ∷ ys) zero x = ok (x ∷ ys)
write_elem (y ∷ ys) (suc i) x = do rest ← write_elem ys i x; ok (y ∷ rest)

abbrev pub to_int : Bool → ℕ
to_int true = 1
to_int false = 0

abbrev pub as_index : ℤ → Result ℕ
as_index (pos i) = ok i
as_index (negsuc n) = err undefined

-- The calendar of SimTimesteps.hpp; `timestep_min` is the configured option.
module _ (timestep_min : ℕ) where
  abbrev pub minute : ℕ → ℕ
  minute timestep = timestep * timestep_min

  abbrev pub hour : ℕ → ℕ
  hour timestep = minute timestep / 60

  abbrev pub day : ℕ → ℕ
  day timestep = hour timestep / 24

-- The loops over the devices, with either step.
unfoldable pub simulate_devices :
    {Engine : Type 0}
    → (Device → DeviceState → Engine → Result (DeviceState × FixedPoint × Engine))
    → List (Device × DeviceState)
    → Engine
    → Result (List (Device × DeviceState) × FixedPoint × Engine)
simulate_devices step [] engine = ok ([], fixed_zero, engine)
simulate_devices step (pair ∷ pairs) engine = do
  here ← step pair.0 pair.1 engine
  later ← simulate_devices step pairs here.2
  ok ((pair.0, here.0) ∷ later.0, here.1 +ᶠ later.1, later.2)

-- `start` draws from std::bernoulli_distribution for a device, by its probability in an hour of a
-- weekend or a weekday.
module _ {Engine : Type 0} (timestep_min : ℕ)
    (start : Device → Bool → ℕ → Engine → Bool × Engine) where
  -- `day(time) % 7 == 5 || day(time % 7 == 6)`, whose second call is of a test.
  unfoldable pub is_weekend : ℕ → Bool
  is_weekend time =
      day timestep_min time % 7 == 5 || not (day timestep_min (to_int (time % 7 == 6)) == 0)

  -- Switched on by chance.
  abbrev pub draw : ℕ → Device → DeviceState → Engine → DeviceState × Engine
  draw time device s engine =
      let (started, next) = start device (is_weekend time) (hour timestep_min time % 24) engine in
      (if started then record s { is_on = true } else s, next)

  -- One device in the loop of simulate_nonshiftables: its state, its power, the random engine.
  unfoldable pub step_nonshiftable :
      ℕ → Device → DeviceState → Engine → Result (DeviceState × FixedPoint × Engine)
  step_nonshiftable time device s engine =
      let (drawn, next) = draw time device s engine in
      let standby = device.standby_load *ᶠ hours timestep_min in
      if drawn.is_on
      then (do
        run ← run_device timestep_min device (record drawn { start_time = pos time })
        ok (run.0, run.1 +ᶠ standby, next))
      else ok (drawn, standby, next)

  -- `scheduled_start_time > -1` and `time >= scheduled_start_time`.
  abbrev pub is_scheduled : DeviceState → Bool
  is_scheduled s = elim s.scheduled_start_time [ pos t ↦ true | negsuc n ↦ false ]

  abbrev pub has_come : ℕ → DeviceState → Bool
  has_come time s = elim s.scheduled_start_time [ pos t ↦ leb t time | negsuc n ↦ true ]

  -- One device in the loop of simulate_shiftables.
  unfoldable pub switch_shiftable : ℕ → Device → DeviceState → Engine → DeviceState × Engine
  switch_shiftable time device s engine =
      if is_scheduled s
      then (
        if not s.is_on && has_come time s
            then record s { is_on = true; start_time = pos time }
            else s,
        engine,
      )
      else draw time device s engine

  unfoldable pub unschedule : ℕ → DeviceState → DeviceState
  unschedule time s =
      if has_come time s && not s.is_on then record s { scheduled_start_time = negsuc 0 } else s

  unfoldable pub step_shiftable :
      ℕ → Device → DeviceState → Engine → Result (DeviceState × FixedPoint × Engine)
  step_shiftable time device s engine =
      let (switched, next) = switch_shiftable time device s engine in
      let standby = device.standby_load *ᶠ hours timestep_min in
      if switched.is_on
      then (do
        run ← run_device timestep_min device switched
        ok (unschedule time run.0, run.1 +ᶠ standby, next))
      else ok (unschedule time switched, standby, next)

  -- The reset at midnight of a device that has finished.
  unfoldable pub reset_finished : DeviceState → DeviceState
  reset_finished s =
      if not s.is_on && not (s.start_time ==ℤ negsuc 0)
      then record s { start_time = negsuc 0; current_cycle_num = 0 }
      else s

  unfoldable pub reset_day : ℕ → List (Device × DeviceState) → List (Device × DeviceState)
  reset_day time pairs =
      if hour timestep_min (time + 1) % 24 == 0
      then map (λ pair. (pair.0, reset_finished pair.1)) pairs
      else pairs

  unfoldable pub simulate_usage_timestep : SimSmartMeter → Engine → Result (SimSmartMeter × Engine)
  simulate_usage_timestep meter engine = do
    time ← as_index (suc_ℤ meter.current_timestep)
    fixed ← simulate_devices (step_nonshiftable time) meter.nonshiftable_devices engine
    consumption ← write_elem meter.consumption time fixed.1
    shifted ← simulate_devices (step_shiftable time) meter.shiftable_devices fixed.2
    shiftable_consumption ← write_elem meter.shiftable_consumption time shifted.1
    reading ← elem_at consumption time
    shiftable ← elem_at shiftable_consumption time
    total ← write_elem consumption time (reading +ᶠ shiftable)
    ok (
      record {
        shiftable_devices = reset_day time shifted.0;
        nonshiftable_devices = reset_day time fixed.0;
        current_timestep = pos time;
        consumption = total;
        shiftable_consumption = shiftable_consumption;
      },
      shifted.2,
    )
