-- ===== src/App/AddPoint/Pickers.antt =====
-- Which temperature and humidity an entry point can have.
use thermo_check.Common.{
  ℕ, zero, suc, ◌+◌, ◌≤◌, ◌<◌, ◌≡◌, refl, ap, ◌∙◌, ◌⊎◌, inl, inr, ◌==◌, Bool-cases, Option, some,
  length, arith,
}
use thermo_check.Common.Int.{ℤ, pos, negsuc, ◌≤ℤ◌, pos_part, neg_part}
use thermo_check.App.AddPoint.{
  AddPoint, succ, range_from, view_did_load, at_row, number_of_rows, select_temperature,
  select_humidity, did_select_row,
}

-- The rows that the user picks, one after the other, each among those that the picker has.
pub data Picked : AddPoint → Type 0 where
  loaded : Picked view_did_load
  picked :
      {c c' : AddPoint} (tag row : ℕ)
      → Picked c
      → row < number_of_rows tag c
      → did_select_row tag row c ≡ some c'
      → Picked c'

-- The lists of the pickers, and what is selected: the gauges show it, but for the temperature that
-- stands until one is picked.
pub record IsInRange (c : AddPoint) : Type 0 where
  pub temperatures : c.temperature_values ≡ range_from 61 (negsuc 9)
  pub humidities : c.humidity_values ≡ range_from 101 (pos 0)
  pub temperature :
      ((c.temperature_selected ≡ negsuc 19) × (c.temperature_gauge ≡ negsuc 9))
      ⊎ ((negsuc 9 ≤ℤ c.temperature_selected)
          × (c.temperature_selected ≤ℤ pos 50)
          × (c.temperature_gauge ≡ c.temperature_selected))
  pub humidity :
      (pos 0 ≤ℤ c.humidity_selected)
      × (c.humidity_selected ≤ℤ pos 100)
      × (c.humidity_gauge ≡ c.humidity_selected)

succ_parts : (i : ℤ) → pos_part (succ i) + neg_part i ≡ pos_part i + neg_part (succ i) + 1
succ_parts (pos n) = omega arith
succ_parts (negsuc zero) = omega arith
succ_parts (negsuc (suc n)) = omega arith

-- A row of the numbers from `i` on is between bounds that they keep.
at_row-range :
    (n row : ℕ) (i lo hi : ℤ)
    → lo ≤ℤ i
    → pos_part i + n + neg_part hi ≤ pos_part hi + neg_part i + 1
    → row < n
    → (v : ℤ) × (at_row (range_from n i) row ≡ some v) × (lo ≤ℤ v) × (v ≤ℤ hi)
unfolding at_row range_from
at_row-range zero row i lo hi low high h = absurd (omega arith)
at_row-range (suc n) zero i lo hi low high h = (i, refl, low, omega arith)
at_row-range (suc n) (suc row) i lo hi low high h =
    at_row-range n row (succ i) lo hi (omega (arith, succ_parts i)) (omega (arith, succ_parts i))
      (omega arith)

length-range_from : (n : ℕ) (i : ℤ) → length (range_from n i) ≡ n
unfolding range_from
length-range_from zero i = refl
length-range_from (suc n) i = omega (arith, length-range_from n (succ i))

IsInRange-view_did_load : IsInRange view_did_load
unfolding view_did_load
IsInRange-view_did_load = record {
  temperatures = refl;
  humidities = refl;
  temperature = inl (refl, refl);
  humidity = (omega arith, omega arith, refl);
}

-- A selection that does not stop the program and keeps the ranges.
abbrev Selects : Option AddPoint → Type 0
Selects r = (c' : AddPoint) × (r ≡ some c') × IsInRange c'

module _ (c : AddPoint) (row : ℕ) (v : IsInRange c) where
  select_temperature-Selects :
      row < length c.temperature_values
      → Selects (select_temperature (at_row c.temperature_values row) c)
  unfolding select_temperature
  select_temperature-Selects h =
      let (t, at, low, high) =
        at_row-range 61 row (negsuc 9) (negsuc 9) (pos 50) (omega arith) (omega arith)
          (omega (arith, ap length v.temperatures, length-range_from 61 (negsuc 9))) in
      (
        record c { temperature_selected = t; temperature_gauge = t },
        ap (λ o. select_temperature o c) (ap (λ l. at_row l row) v.temperatures ∙ at),
        record {
          temperatures = v.temperatures;
          humidities = v.humidities;
          temperature = inr (low, high, refl);
          humidity = v.humidity;
        },
      )

  select_humidity-Selects :
      row < length c.humidity_values → Selects (select_humidity (at_row c.humidity_values row) c)
  unfolding select_humidity
  select_humidity-Selects h =
      let (t, at, low, high) =
        at_row-range 101 row (pos 0) (pos 0) (pos 100) (omega arith) (omega arith)
          (omega (arith, ap length v.humidities, length-range_from 101 (pos 0))) in
      (
        record c { humidity_selected = t; humidity_gauge = t },
        ap (λ o. select_humidity o c) (ap (λ l. at_row l row) v.humidities ∙ at),
        record {
          temperatures = v.temperatures;
          humidities = v.humidities;
          temperature = v.temperature;
          humidity = (low, high, refl);
        },
      )

did_select_row-Selects :
    (c : AddPoint) (tag row : ℕ)
    → IsInRange c
    → row < number_of_rows tag c
    → Selects (did_select_row tag row c)
unfolding did_select_row number_of_rows
did_select_row-Selects c tag row v h = elim (Bool-cases (tag == 1)) [
  | inl first ↦ rw first (select_temperature-Selects c row v (rw first at h))
  | inr second ↦ rw second (select_humidity-Selects c row v (rw second at h))
]

-- After any picks of rows that the pickers have, the temperature that would be saved is from -10 to
-- 50 and shown by its gauge, or, with none picked, still -20 with the gauge at -10; the humidity is
-- from 0 to 100 and shown by its gauge.
pub Picked-IsInRange : {c : AddPoint} → Picked c → IsInRange c
Picked-IsInRange loaded = IsInRange-view_did_load
Picked-IsInRange {c} (picked {c = b} tag row p h e) =
    let (c', e', v) = did_select_row-Selects b tag row (Picked-IsInRange p) h in rw (same c' e') v
  where
    same : (c' : AddPoint) → did_select_row tag row b ≡ some c' → c ≡ c'
    same c' e' = cc

-- After any picks of rows that the pickers have, a pick of another row that the picker with the tag
-- has does not stop the program, and leaves a state after picks again.
pub did_select_row-IsSome :
    {c : AddPoint} (tag row : ℕ)
    → Picked c
    → row < number_of_rows tag c
    → (c' : AddPoint) × (did_select_row tag row c ≡ some c') × Picked c'
did_select_row-IsSome {c} tag row p h =
    let (c', e, v) = did_select_row-Selects c tag row (Picked-IsInRange p) h in
    (c', e, picked tag row p h e)
