-- ===== src/App/AddPoint.antt =====
-- AddNewPointViewController.swift: the pickers, the gauges, and saving an entry point.
pub mod Pickers
pub mod Saved
use thermo_check.Common.{
  ℕ, zero, suc, ◌+◌, ◌==◌, Bool, true, false, Option, none, some, List, [], ◌∷◌, length,
  if◌then◌else◌,
}
use thermo_check.Common.Int.{ℤ, pos, negsuc}
use thermo_check.App.EntryPoint.{Text, EntryPoint}
use thermo_check.App.Sql.{Sqlite, Connection, createtable, insert}

-- What the HUD shows.
pub data Hud : Type 0 where
  hidden progress success failure : Hud

-- The controller, without the views that do not change. A `value` of a gauge is a whole number.
pub record AddPoint : Type 0 where
  pub temperature_values : List ℤ
  pub humidity_values : List ℤ
  pub temperature_selected : ℤ
  pub humidity_selected : ℤ
  pub temperature_gauge : ℤ
  pub humidity_gauge : ℤ

-- The numbers from `i` on, `n` of them; the next number.
abbrev pub succ : ℤ → ℤ
succ (pos n) = pos (n + 1)
succ (negsuc zero) = pos 0
succ (negsuc (suc n)) = negsuc n

unfoldable pub range_from : ℕ → ℤ → List ℤ
range_from zero i = []
range_from (suc n) i = i ∷ range_from n (succ i)

-- The stored properties, with `configurePickers` (-10...50 and 0...100) and `configureGauge`.
unfoldable pub view_did_load : AddPoint
view_did_load = record {
  temperature_values = range_from 61 (negsuc 9);
  humidity_values = range_from 101 (pos 0);
  temperature_selected = negsuc 19;
  humidity_selected = pos 0;
  temperature_gauge = negsuc 9;
  humidity_gauge = pos 0;
}

-- `values[row]`: an index out of range stops the program.
unfoldable pub at_row : List ℤ → ℕ → Option ℤ
at_row [] row = none
at_row (v ∷ values) zero = some v
at_row (v ∷ values) (suc row) = at_row values row

-- `numberOfRowsInComponent`.
unfoldable pub number_of_rows : ℕ → AddPoint → ℕ
number_of_rows tag c = if tag == 1 then length c.temperature_values else length c.humidity_values

unfoldable pub select_temperature : Option ℤ → AddPoint → Option AddPoint
select_temperature none c = none
select_temperature (some v) c = some (record c { temperature_selected = v; temperature_gauge = v })

unfoldable pub select_humidity : Option ℤ → AddPoint → Option AddPoint
select_humidity none c = none
select_humidity (some v) c = some (record c { humidity_selected = v; humidity_gauge = v })

-- `didSelectRow`; `none` where the program stops.
unfoldable pub did_select_row : ℕ → ℕ → AddPoint → Option AddPoint
did_select_row tag row c =
    if tag == 1
    then select_temperature (at_row c.temperature_values row) c
    else select_humidity (at_row c.humidity_values row) c

-- The entry point of `saveTapped`, for the text of the date picker.
unfoldable pub entry_point : Text → AddPoint → EntryPoint
entry_point date c = record {
  date_time = date;
  temperature = c.temperature_selected;
  humidity = c.humidity_selected;
}

-- What `saveTapped` and the answer of Firebase change.
pub record Saving (sqlite : Sqlite) : Type 0 where
  pub connection : Connection sqlite
  pub hud : Hud
  pub dismissed : Bool

module _ (sqlite : Sqlite) where
  unfoldable pub save_sql : EntryPoint → Connection sqlite → Connection sqlite
  save_sql e db = (insert sqlite e (createtable sqlite db)).1

  -- `saveTapped`, until Firebase answers.
  unfoldable pub save_tapped : Saving sqlite → Saving sqlite
  save_tapped s = record s { hud = progress }

  -- The completion of `entryPoint.save`, with whether there was an error.
  unfoldable pub save_answered : EntryPoint → Bool → Saving sqlite → Saving sqlite
  save_answered e error s =
      if error
      then s
      else record s { connection = save_sql e s.connection; hud = success; dismissed = true }
