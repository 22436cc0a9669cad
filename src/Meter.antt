-- ===== src/Meter.antt =====
-- The simulated meter of src/apps/smart_meters/SimSmartMeter.cpp and its header: its data, and
-- run_device. The children have the rest: Simulation the timesteps, Vectors the aggregation.
use adq.Common.{
  ℕ, zero, suc, ◌+◌, ◌-◌, ◌*◌, ◌/◌, Bool, true, false, ◌&&◌, ltb, ◌==◌, if◌then◌else◌, List,
  get_elem?, length, ℤ, Option, some, none, Result, ok, err, undefined, out_of_fuel, ◌>>=◌,
}
pub mod Simulation
pub mod Cycles
pub mod Running
pub mod Start
pub mod Vectors
pub mod Measures

-- FixedPoint<int64_t, 16> of util/FixedPoint.hpp, whose member `m` is never negative here.
pub record FixedPoint : Type 0 where
  pub m : ℕ

abbrev pub factor : ℕ
factor = 0x8000

abbrev pub fixed_zero : FixedPoint
fixed_zero = record { m = 0 }

-- operator+, which is also +=.
infixl 60 ◌+ᶠ◌
abbrev pub ◌+ᶠ◌ : FixedPoint → FixedPoint → FixedPoint
x +ᶠ y = record { m = x.m + y.m }

infixl 70 ◌*ᶠ◌
abbrev pub ◌*ᶠ◌ : FixedPoint → FixedPoint → FixedPoint
x *ᶠ y = record { m = x.m * y.m / factor }

-- FixedPoint_t(minutes / 60.0): the constructor rounds down, and so does the division here.
abbrev pub hours : ℕ → FixedPoint
hours minutes = record { m = minutes * factor / 60 }

-- `name` is its characters. What only the random draws of a device use is left to them.
pub record Device : Type 0 where
  pub name : List ℕ
  pub load_per_cycle : List FixedPoint
  pub time_per_cycle : List ℕ
  pub standby_load : FixedPoint

pub record DeviceState : Type 0 where
  pub start_time : ℤ
  pub scheduled_start_time : ℤ
  pub is_on : Bool
  pub current_cycle_num : ℕ
  pub time_in_current_cycle : ℕ

-- A vector's operator[].
abbrev pub elem_at {ℓ} : {A : Type ℓ} → List A → ℕ → Result A
elem_at xs i = elim (get_elem? xs i) [ none ↦ err undefined | some x ↦ ok x ]

abbrev pub min : ℕ → ℕ → ℕ
min a b = if ltb b a then b else a

-- What a pass of the `while` loop does with the time and the load of the current cycle: the state,
-- the minutes left in the timestep, the power so far. A device that is past the end of its cycle
-- goes back to that end: `minutes_simulated` is then negative (and power is never below 0 here).
abbrev pub advance : ℕ → FixedPoint → DeviceState → ℕ → FixedPoint → DeviceState × ℕ × FixedPoint
advance cycle_time load s remaining power =
    let next_cycle = record s {
      current_cycle_num = s.current_cycle_num + 1;
      time_in_current_cycle = 0;
    } in
    if ltb cycle_time s.time_in_current_cycle
    then (let over = s.time_in_current_cycle - cycle_time in
        (next_cycle, remaining + over, record { m = power.m - (load *ᶠ hours over).m }))
    else (let minutes = min (cycle_time - s.time_in_current_cycle) remaining in
        let time_in_cycle = s.time_in_current_cycle + minutes in
        (
          if time_in_cycle == cycle_time
              then next_cycle
              else record s { time_in_current_cycle = time_in_cycle },
          remaining - minutes,
          power +ᶠ load *ᶠ hours minutes,
        ))

unfoldable pub run_cycle :
    Device → DeviceState → ℕ → FixedPoint → Result (DeviceState × ℕ × FixedPoint)
run_cycle device s remaining power = do
  cycle_time ← elem_at device.time_per_cycle s.current_cycle_num
  load ← elem_at device.load_per_cycle s.current_cycle_num
  ok (advance cycle_time load s remaining power)

-- The `while` loop. Each pass but the last completes a cycle.
unfoldable pub run_cycles :
    ℕ → Device → DeviceState → ℕ → FixedPoint → Result (DeviceState × FixedPoint)
run_cycles zero device s remaining power = err out_of_fuel
run_cycles (suc fuel) device s remaining power =
    elim (ltb 0 remaining && ltb s.current_cycle_num (length device.load_per_cycle)) [
      | true ↦
          run_cycle device s remaining power
          >>= (λ next. run_cycles fuel device next.0 next.1 next.2)
      | false ↦ ok (s, power)
    ]

unfoldable pub run_device : ℕ → Device → DeviceState → Result (DeviceState × FixedPoint)
run_device timestep_min device s = do
  next ← run_cycles (suc (length device.load_per_cycle)) device s timestep_min fixed_zero
  ok (
    if next.0.current_cycle_num == length device.load_per_cycle
        then record next.0 { is_on = false; current_cycle_num = 0 }
        else next.0,
    next.1,
  )
