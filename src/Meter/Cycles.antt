-- ===== src/Meter/Cycles.antt =====
-- The passes of the `while` loop in run_device of src/apps/smart_meters/SimSmartMeter.cpp.
use adq.Common.{
  ℕ, zero, suc, ◌+◌, ◌-◌, ◌≤◌, ◌<◌, ◌≡◌, refl, true, false, ◌&&◌, ltb, List, [], ◌∷◌, get_elem?,
  get_elem?-lt, get_elem?-below, length, ◌⊎◌, some, ok, arith,
}
use adq.Meter.{FixedPoint, Device, DeviceState, advance, run_cycle, run_cycles, elem_at}

-- The minutes of the cycles from number i on.
unfoldable pub minutes_from : List ℕ → ℕ → ℕ
minutes_from [] i = 0
minutes_from (t ∷ ts) zero = t + minutes_from ts zero
minutes_from (t ∷ ts) (suc i) = minutes_from ts i

abbrev pub AllPositive : List ℕ → Type 0
AllPositive [] = Unit {0}
AllPositive (t ∷ ts) = (0 < t) × AllPositive ts

-- Both lists have one element for each cycle, and every cycle takes time.
pub record IsAligned (device : Device) : Type 0 where
  pub aligned : length device.load_per_cycle ≡ length device.time_per_cycle
  pub positive : AllPositive device.time_per_cycle

-- The device is in the middle of a cycle.
pub record InCycle (device : Device) (s : DeviceState) : Type 0 where
  pub cycle_time : ℕ
  pub this_cycle : get_elem? device.time_per_cycle s.current_cycle_num ≡ some cycle_time
  pub not_over : s.time_in_current_cycle < cycle_time

-- The minutes that the program still takes.
abbrev pub minutes_left : Device → DeviceState → ℕ
minutes_left device s =
    minutes_from device.time_per_cycle s.current_cycle_num - s.time_in_current_cycle

pub minutes_from-get :
    (ts : List ℕ) (i : ℕ) {t : ℕ}
    → get_elem? ts i ≡ some t
    → minutes_from ts i ≡ t + minutes_from ts (i + 1)
unfolding minutes_from
minutes_from-get [] i e = cc
minutes_from-get (x ∷ ts) zero e = grind (arith, e)
minutes_from-get (x ∷ ts) (suc i) e =
    let next : suc i + 1 ≡ suc (i + 1) = omega arith in rw next (minutes_from-get ts i e)

get-positive : (ts : List ℕ) (i : ℕ) {t : ℕ} → AllPositive ts → get_elem? ts i ≡ some t → 0 < t
get-positive [] i p e = cc
get-positive (x ∷ ts) zero p e = grind (arith, e, p.0)
get-positive (x ∷ ts) (suc i) p e = get-positive ts i p.1 e

pub minutes_from_end : (ts : List ℕ) (i : ℕ) → length ts ≤ i → minutes_from ts i ≡ 0
unfolding minutes_from
minutes_from_end [] i h = refl
minutes_from_end (t ∷ ts) zero h = absurd (omega arith)
minutes_from_end (t ∷ ts) (suc i) h = minutes_from_end ts i (omega arith)

run_cycle-advance :
    (device : Device) (s : DeviceState) (r : ℕ) (p : FixedPoint) {t : ℕ} {load : FixedPoint}
    → get_elem? device.time_per_cycle s.current_cycle_num ≡ some t
    → get_elem? device.load_per_cycle s.current_cycle_num ≡ some load
    → run_cycle device s r p ≡ ok (advance t load s r p)
unfolding run_cycle
run_cycle-advance device s r p time load = rw (run_cycle, elem_at, time, load) refl

-- A cycle that fits is completed.
advance_over :
    (t : ℕ) (load : FixedPoint) (s : DeviceState) (r : ℕ) (p : FixedPoint)
    → s.time_in_current_cycle < t
    → t - s.time_in_current_cycle ≤ r
    → ((advance t load s r p).0
        ≡ record s { current_cycle_num = s.current_cycle_num + 1; time_in_current_cycle = 0 })
      × ((advance t load s r p).1 ≡ r - (t - s.time_in_current_cycle))
advance_over t load s r p inside fits = ground arith

-- One that does not fit takes the rest of the timestep.
advance_within :
    (t : ℕ) (load : FixedPoint) (s : DeviceState) (r : ℕ) (p : FixedPoint)
    → s.time_in_current_cycle < t
    → r < t - s.time_in_current_cycle
    → ((advance t load s r p).0 ≡ record s { time_in_current_cycle = s.time_in_current_cycle + r })
      × ((advance t load s r p).1 ≡ 0)
advance_within t load s r p inside short = ground arith

module _ (device : Device) (good : IsAligned device) where
  -- The loop stops at the end of the timestep, and after the last cycle.
  pub run_cycles_stop :
      (fuel : ℕ) (s : DeviceState) (r : ℕ) (p : FixedPoint)
      → 0 < fuel
      → (r ≡ 0) ⊎ (s.current_cycle_num ≡ length device.load_per_cycle)
      → run_cycles fuel device s r p ≡ ok (s, p)
  unfolding run_cycles
  run_cycles_stop zero s r p enough stop = absurd (omega arith)
  run_cycles_stop (suc fuel) s r p enough stop =
      let over : (ltb 0 r && ltb s.current_cycle_num (length device.load_per_cycle)) ≡ false =
        ground (arith, stop) in
      rw (run_cycles, over) refl

  run_cycles_pass :
      (fuel : ℕ) (s : DeviceState) (r : ℕ) (p : FixedPoint) {t : ℕ} {load : FixedPoint}
      → 0 < r
      → get_elem? device.time_per_cycle s.current_cycle_num ≡ some t
      → get_elem? device.load_per_cycle s.current_cycle_num ≡ some load
      → let next = advance t load s r p in
        run_cycles (suc fuel) device s r p ≡ run_cycles fuel device next.0 next.1 next.2
  unfolding run_cycles
  run_cycles_pass fuel s r p positive time load =
      let running : (ltb 0 r && ltb s.current_cycle_num (length device.load_per_cycle)) ≡ true =
        ground (arith, get_elem?-lt device.load_per_cycle s.current_cycle_num load) in
      rw (run_cycles, running, run_cycle-advance device s r p time load) refl

  abbrev pub next_cycle : DeviceState → DeviceState
  next_cycle s = record s { current_cycle_num = s.current_cycle_num + 1; time_in_current_cycle = 0 }

  abbrev pub within_cycle : ℕ → DeviceState → DeviceState
  within_cycle r s = record s { time_in_current_cycle = s.time_in_current_cycle + r }

  load_of :
      (s : DeviceState)
      → InCycle device s
      → (load : FixedPoint) × (get_elem? device.load_per_cycle s.current_cycle_num ≡ some load)
  load_of s c = get_elem?-below device.load_per_cycle s.current_cycle_num (
      omega
        (arith, get_elem?-lt device.time_per_cycle s.current_cycle_num c.this_cycle, good.aligned))

  -- The passes of a device in a cycle.
  pub pass_over :
      (fuel : ℕ) (s : DeviceState) (r : ℕ) (p : FixedPoint) (c : InCycle device s)
      → 0 < r
      → c.cycle_time - s.time_in_current_cycle ≤ r
      → (q : FixedPoint) × (run_cycles (suc fuel) device s r p
          ≡ run_cycles fuel device (next_cycle s) (r - (c.cycle_time - s.time_in_current_cycle)) q)
  pass_over fuel s r p c positive fits =
      let (load, this_load) = load_of s c in
      let pass = run_cycles_pass fuel s r p positive c.this_cycle this_load in
      let (state, rest) = advance_over c.cycle_time load s r p c.not_over fits in
      ((advance c.cycle_time load s r p).2, cc)

  pub pass_within :
      (fuel : ℕ) (s : DeviceState) (r : ℕ) (p : FixedPoint) (c : InCycle device s)
      → 0 < r
      → r < c.cycle_time - s.time_in_current_cycle
      → (q : FixedPoint) × (run_cycles (suc fuel) device s r p
          ≡ run_cycles fuel device (within_cycle r s) 0 q)
  pass_within fuel s r p c positive short =
      let (load, this_load) = load_of s c in
      let pass = run_cycles_pass fuel s r p positive c.this_cycle this_load in
      let (state, rest) = advance_within c.cycle_time load s r p c.not_over short in
      ((advance c.cycle_time load s r p).2, cc)

  pub cycle_start :
      (s : DeviceState)
      → s.time_in_current_cycle ≡ 0
      → s.current_cycle_num < length device.time_per_cycle
      → InCycle device s
  cycle_start s start below =
      let (t, this) = get_elem?-below device.time_per_cycle s.current_cycle_num below in
      record {
        cycle_time = t;
        this_cycle = this;
        not_over = omega (
          arith,
          start,
          get-positive device.time_per_cycle s.current_cycle_num good.positive this,
        );
      }
