-- ===== src/App/Chart/Labels.antt =====
-- The labels of the axis, which Charts asks for while there is a chart.
use thermo_check.Common.{◌≤◌, Option, none, some, List, [], ◌∷◌, length}
use thermo_check.Common.Int.{pos, negsuc}
use thermo_check.App.EntryPoint.{EntryPoint, Anything}
use thermo_check.App.Sql.{Sqlite}
use thermo_check.App.Chart.{Chart, entry_of, Event, added, cleared, answered, Turn, event, label}

-- The text of the date picker has a date of ten characters first.
abbrev pub HasDate : EntryPoint → Type 0
HasDate e = 10 ≤ length e.date_time

module _ (any : Anything) (sqlite : Sqlite) where
  -- A report of no entry point, or of one with a date.
  abbrev pub IsDated : Option EntryPoint → Type 0
  IsDated none = Unit {0}
  IsDated (some e) = HasDate e

  -- A report has a date, and a label is asked for at a value that is an integer of 0 or more.
  abbrev pub IsProper : Turn any sqlite → Type 0
  IsProper (event (added value)) = IsDated (entry_of any sqlite value)
  IsProper (event cleared) = Unit {0}
  IsProper (event (answered error)) = Unit {0}
  IsProper (label none) = ⊥
  IsProper (label (some (pos n))) = Unit {0}
  IsProper (label (some (negsuc n))) = ⊥

  -- The turns without the labels.
  unfoldable pub events_of : List (Turn any sqlite) → List (Event any sqlite)
  events_of [] = []
  events_of (event e ∷ turns) = e ∷ events_of turns
  events_of (label value ∷ turns) = events_of turns
