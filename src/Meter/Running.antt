-- ===== src/Meter/Running.antt =====
-- What run_device of src/apps/smart_meters/SimSmartMeter.cpp does with a device's program.
use adq.Common.{
  ℕ, zero, suc, ◌+◌, ◌-◌, ◌≤◌, ◌<◌, ◌≡◌, refl, ◌∙◌, false, ltb, ltb→lt, ltb→ge, ◌==◌, ==_refl,
  get_elem?-lt, length, ◌⊎◌, inl, inr, ok, Bool-cases, arith,
}
use adq.Meter.{FixedPoint, Device, DeviceState, run_cycles, run_device, fixed_zero}
use adq.Meter.Cycles.{
  minutes_left, minutes_from-get, minutes_from_end, IsAligned, InCycle, run_cycles_stop, pass_over,
  pass_within, cycle_start, next_cycle, within_cycle,
}

module _ (device : Device) (good : IsAligned device) where
  -- The program ends within r minutes, or takes r minutes less from then on.
  abbrev Outcome : DeviceState → ℕ → DeviceState → Type 0
  Outcome s r out =
      ((minutes_left device s ≤ r)
        × (out.current_cycle_num ≡ length device.load_per_cycle)
        × (out.time_in_current_cycle ≡ 0))
      ⊎ ((r < minutes_left device s)
          × InCycle device out
          × (minutes_left device out + r ≡ minutes_left device s)
          × (out.is_on ≡ s.is_on))

  cycle_goes_on :
      (fuel : ℕ) (s : DeviceState) (r : ℕ) (p : FixedPoint)
      → length device.load_per_cycle < suc fuel + s.current_cycle_num
      → (c : InCycle device s) → 0 < r
      → r < c.cycle_time - s.time_in_current_cycle
      → (out : DeviceState × FixedPoint) × (run_cycles (suc fuel) device s r p ≡ ok out)
        × Outcome s r out.0
  cycle_goes_on fuel s r p enough c positive short =
      let below = get_elem?-lt device.time_per_cycle s.current_cycle_num c.this_cycle in
      let whole = minutes_from-get device.time_per_cycle s.current_cycle_num c.this_cycle in
      let (q, pass) = pass_within device good fuel s r p c positive short in
      let stop =
        run_cycles_stop device good fuel (within_cycle device good r s) 0 q
          (omega (arith, enough, below, good.aligned)) (inl refl) in
      let inside : InCycle device (within_cycle device good r s) = record {
        cycle_time = c.cycle_time;
        this_cycle = c.this_cycle;
        not_over = omega (arith, short);
      } in
      (
        (within_cycle device good r s, q),
        pass ∙ stop,
        inr (omega (arith, whole, short), inside, omega (arith, whole, short), refl),
      )

  last_cycle :
      (fuel : ℕ) (s : DeviceState) (r : ℕ) (q : FixedPoint)
      → length device.load_per_cycle < suc fuel + s.current_cycle_num
      → (c : InCycle device s) → c.cycle_time - s.time_in_current_cycle ≤ r
      → length device.time_per_cycle ≤ s.current_cycle_num + 1
      → (run_cycles fuel device
            (next_cycle device good s)
            (r - (c.cycle_time - s.time_in_current_cycle))
            q
          ≡ ok (next_cycle device good s, q))
        × Outcome s r (next_cycle device good s)
  last_cycle fuel s r q enough c fits ended =
      let below = get_elem?-lt device.time_per_cycle s.current_cycle_num c.this_cycle in
      let whole = minutes_from-get device.time_per_cycle s.current_cycle_num c.this_cycle in
      let none = minutes_from_end device.time_per_cycle (s.current_cycle_num + 1) ended in
      let at_end : s.current_cycle_num + 1 ≡ length device.load_per_cycle =
        omega (arith, ended, below, good.aligned) in
      (
        run_cycles_stop device good fuel (next_cycle device good s) _ q
            (omega (arith, enough, below, good.aligned)) (inr at_end),
        inl (omega (arith, whole, none, fits), at_end, refl),
      )

  -- The outcome of the cycles after one that is completed.
  after_cycle :
      (s : DeviceState) (r : ℕ) (out : DeviceState) (c : InCycle device s)
      → c.cycle_time - s.time_in_current_cycle ≤ r
      → Outcome (next_cycle device good s) (r - (c.cycle_time - s.time_in_current_cycle)) out
      → Outcome s r out
  after_cycle s r out c fits outcome =
      let whole = minutes_from-get device.time_per_cycle s.current_cycle_num c.this_cycle in
      elim outcome [
        | inl (ends, cycle, time) ↦ inl (omega (arith, whole, fits, ends, c.not_over), cycle, time)
        | inr (goes_on, inside, less, still) ↦ inr (
          omega (arith, whole, fits, goes_on, c.not_over),
          inside,
          omega (arith, whole, fits, less, c.not_over),
          still,
        )
      ]

  run_cycles-Outcome :
      (fuel : ℕ) (s : DeviceState) (r : ℕ) (p : FixedPoint)
      → length device.load_per_cycle < fuel + s.current_cycle_num
      → InCycle device s
      → (out : DeviceState × FixedPoint) × (run_cycles fuel device s r p ≡ ok out)
        × Outcome s r out.0
  run_cycles-Outcome zero s r p enough c = absurd (
      omega
        (arith, get_elem?-lt device.time_per_cycle s.current_cycle_num c.this_cycle, good.aligned))
  run_cycles-Outcome (suc fuel) s zero p enough c =
      let whole = minutes_from-get device.time_per_cycle s.current_cycle_num c.this_cycle in
      (
        (s, p),
        run_cycles_stop device good (suc fuel) s 0 p (omega arith) (inl refl),
        inr (omega (arith, whole, c.not_over), c, omega arith, refl),
      )
  run_cycles-Outcome (suc fuel) s (suc r) p enough c =
      elim (Bool-cases (ltb (suc r) (c.cycle_time - s.time_in_current_cycle))) [
        | inl short ↦ cycle_goes_on fuel s (suc r) p enough c (omega arith) (ltb→lt _ _ short)
        | inr long ↦
            let fits = ltb→ge (suc r) (c.cycle_time - s.time_in_current_cycle) long in
            let (q, pass) = pass_over device good fuel s (suc r) p c (omega arith) fits in
            elim (Bool-cases (ltb (s.current_cycle_num + 1) (length device.time_per_cycle))) [
              | inl more ↦
                  let (out, runs, outcome) =
                    run_cycles-Outcome fuel (next_cycle device good s) _ q (omega (arith, enough))
                      (cycle_start device good (next_cycle device good s) refl (ltb→lt _ _ more)) in
                  (out, pass ∙ runs, after_cycle s (suc r) out.0 c fits outcome)
              | inr last ↦
                  let (ends, outcome) =
                    last_cycle fuel s (suc r) q enough c fits (ltb→ge _ _ last) in
                  ((next_cycle device good s, q), pass ∙ ends, outcome)
            ]
      ]

-- A device in the middle of a cycle is run for the timestep: a program that the timestep does not
-- end goes on with the rest of its minutes, and one that it ends leaves the device switched off at
-- its first cycle. It needs as many loads as times of cycles, and no time that is 0.
pub run_device_minutes :
    (timestep_min : ℕ) (device : Device) (s : DeviceState)
    → IsAligned device
    → InCycle device s
    → (out : DeviceState × FixedPoint) × (run_device timestep_min device s ≡ ok out)
      × (((minutes_left device s ≤ timestep_min)
            × (out.0.is_on ≡ false)
            × (out.0.current_cycle_num ≡ 0)
            × (out.0.time_in_current_cycle ≡ 0))
          ⊎ ((timestep_min < minutes_left device s)
              × (out.0.is_on ≡ s.is_on)
              × InCycle device out.0
              × (minutes_left device out.0 + timestep_min ≡ minutes_left device s)))
unfolding run_device
run_device_minutes timestep_min device s good c =
    let cycles = length device.load_per_cycle in
    let (out, runs, outcome) =
      run_cycles-Outcome device good (suc cycles) s timestep_min fixed_zero (omega arith) c in
    elim outcome [
      | inl (ends, cycle, time) ↦ (
        (record out.0 { is_on = false; current_cycle_num = 0 }, out.1),
        rw (run_device, runs, cycle, ==_refl cycles) refl,
        inl (ends, refl, refl, time),
      )
      | inr (goes_on, inside, less, still) ↦
          let inner : (out.0.current_cycle_num == cycles) ≡ false = ground (
            arith,
            good.aligned,
            get_elem?-lt device.time_per_cycle out.0.current_cycle_num inside.this_cycle,
          ) in
          (out, rw (run_device, runs, inner) refl, inr (goes_on, still, inside, less))
    ]
