-- ===== src/Meter/Measures.antt =====
-- The measurements of src/apps/smart_meters/SimSmartMeter.cpp: measure and measure_daily_consumption.
use adq.Common.{
  ℕ, zero, suc, ◌+◌, ◌-◌, ◌*◌, ◌/◌, ◌%◌, ◌<◌, ◌≡◌, refl, ap, false, ltb, if◌then◌else◌, List, [],
  ◌∷◌, ◌++◌, length, length-append, subst, get_elem?-below, get_elem?-append_right, ℤ, pos, negsuc,
  Result, ok, ◌>>=◌, arith,
}
use mathlib.Core.List.{append_assoc}
use native.Mathlib.Nat.{mul-div_cancel, mul-mod_left, mul-zero, zero-div}
use adq.Meter.{FixedPoint, fixed_zero, factor, ◌+ᶠ◌, ◌*ᶠ◌, elem_at}
use adq.Meter.Simulation.{day, SimSmartMeter}

-- `for i in 0 .. n - 1: sum += data[i]`
unfoldable pub sum_first : List FixedPoint → ℕ → Result FixedPoint
sum_first readings zero = ok fixed_zero
sum_first readings (suc n) = do
  so_far ← sum_first readings n
  reading ← elem_at readings n
  ok (so_far +ᶠ reading)

-- `for offset in 0 .. n - 1: sum += data[current_timestep - offset]`, with n at most the timestep.
unfoldable pub sum_last : List FixedPoint → ℕ → ℕ → Result FixedPoint
sum_last readings current_timestep zero = ok fixed_zero
sum_last readings current_timestep (suc n) = do
  so_far ← sum_last readings current_timestep n
  reading ← elem_at readings (current_timestep - n)
  ok (so_far +ᶠ reading)

module _ (timestep_min : ℕ) where
  -- FixedPoint_t(window / (double) timestep - whole timesteps), rounded down.
  abbrev pub last_fraction : ℕ → FixedPoint
  last_fraction window_minutes = record {
    m = window_minutes % timestep_min * factor / timestep_min;
  }

  -- More timesteps than there are give what there is.
  unfoldable pub measure : List FixedPoint → ℤ → ℕ → Result FixedPoint
  measure readings (negsuc n) window_minutes = ok fixed_zero
  measure readings (pos current) window_minutes =
      let whole = window_minutes / timestep_min in
      if ltb current whole then sum_first readings (current + 1) else (do
        window ← sum_last readings current whole
        reading ← elem_at readings (current - whole)
        ok (window +ᶠ reading *ᶠ last_fraction window_minutes))

  -- The readings from midnight to the timestep before the current one.
  unfoldable pub sum_between : List FixedPoint → ℕ → ℕ → Result FixedPoint
  sum_between readings from zero = ok fixed_zero
  sum_between readings from (suc n) = do
    so_far ← sum_between readings from n
    reading ← elem_at readings (from + n)
    ok (so_far +ᶠ reading)

  unfoldable pub measure_daily_consumption : SimSmartMeter → Result FixedPoint
  measure_daily_consumption meter = elim meter.current_timestep [
    | pos current ↦
        let day_start = day timestep_min current * (1440 / timestep_min) in
        sum_between meter.consumption day_start (current - day_start)
    | negsuc n ↦ ok fixed_zero
  ]

  unfoldable pub measure_consumption : SimSmartMeter → ℕ → Result FixedPoint
  measure_consumption meter = measure meter.consumption meter.current_timestep

  unfoldable pub measure_shiftable_consumption : SimSmartMeter → ℕ → Result FixedPoint
  measure_shiftable_consumption meter = measure meter.shiftable_consumption meter.current_timestep

-- A sum of readings, the first one added last.
unfoldable pub total : List FixedPoint → FixedPoint
total [] = fixed_zero
total (x ∷ xs) = total xs +ᶠ x

elem_at-middle :
    (xs ys : List FixedPoint) (y : FixedPoint) (i : ℕ)
    → i ≡ length xs
    → elem_at (xs ++ y ∷ ys) i ≡ ok y
elem_at-middle xs ys y i e =
    let found = get_elem?-append_right xs (y ∷ ys) 0 in
    let place : i ≡ length xs + 0 = omega (arith, e) in rw (elem_at, place, found) refl

sum_last-total :
    (before window rest : List FixedPoint) (current : ℕ)
    → current + 1 ≡ length before + length window
    → sum_last (before ++ (window ++ rest)) current (length window) ≡ ok (total window)
unfolding sum_last total
sum_last-total before [] rest current e = refl
sum_last-total before (x ∷ window) rest current e =
    let shifted = append_assoc before (x ∷ []) (window ++ rest) in
    let later =
      sum_last-total (before ++ x ∷ []) window rest current
        (omega (arith, e, length-append before (x ∷ []))) in
    let later_here =
      subst (λ readings. sum_last readings current (length window) ≡ ok (total window)) shifted
        later in
    let here =
      elem_at-middle before (window ++ rest) x (current - length window) (omega (arith, e)) in
    rw (later_here, here) refl

no_fraction : (x y f : FixedPoint) → f.m ≡ 0 → x +ᶠ y *ᶠ f ≡ x
no_fraction x y f none =
    let product : y.m * f.m ≡ 0 = rw none (mul-zero y.m) in
    let sum : x.m + y.m * f.m / factor ≡ x.m = omega (arith, product) in
    ap (λ (m : ℕ). record { m = m }) sum

-- The consumption over a window of whole timesteps that is shorter than the simulation so far is
-- the sum of the readings of its timesteps, the current one last.
measure_window :
    (timestep_min : ℕ) (x : FixedPoint) (before window rest : List FixedPoint)
    → 0 < timestep_min
    → measure timestep_min
        ((x ∷ before) ++ (window ++ rest))
        (pos (length before + length window))
        (length window * timestep_min)
      ≡ ok (total window)
unfolding measure
measure_window timestep_min x before window rest positive =
    let n = length window in
    let current = length before + n in
    let quotient : n * timestep_min / timestep_min ≡ n = mul-div_cancel n positive in
    let remainder : n * timestep_min % timestep_min ≡ 0 = mul-mod_left n timestep_min in
    let enough : ltb current n ≡ false = ground arith in
    let summed = sum_last-total (x ∷ before) window rest current (omega arith) in
    let (reading, read) =
      get_elem?-below ((x ∷ before) ++ (window ++ rest)) (current - n)
        (omega (arith, length-append (x ∷ before) (window ++ rest))) in
    rw (measure, quotient, remainder, enough, summed, elem_at, read)
      (ap ok (
        no_fraction (total window) reading (record { m = 0 * factor / timestep_min })
          (zero-div timestep_min)))
