-- ===== src/App/Chart.antt =====
-- ChartViewController.swift: the entry points that Firebase reports, the chart of them, and clearing.
pub mod Labels
pub mod Shown
use thermo_check.Common.{
  ℕ, zero, suc, ◌+◌, ◌%◌, ◌==◌, ltb, Bool, true, false, Option, none, some, List, [], ◌∷◌, ◌++◌,
  length, get_elem?, take, drop, if◌then◌else◌,
}
use thermo_check.Common.Int.{ℤ, pos, negsuc}
use thermo_check.App.EntryPoint.{Text, EntryPoint, Anything, Dict, init?}
use thermo_check.App.Sql.{Sqlite, Connection, clear_entrypoints}
use thermo_check.App.AddPoint.{Hud, progress, success, failure}

-- The points of a line or of bars: `x` is an index, and `y` a whole number.
abbrev pub Points : Type 0
Points = List (ℕ × ℤ)

-- `entries.append(…)` for each index from `i` on.
unfoldable pub points_from : (EntryPoint → ℤ) → ℕ → List EntryPoint → Points
points_from y i [] = []
points_from y i (e ∷ es) = (i, y e) ∷ points_from y (i + 1) es

-- The entries of `generateLineData` and `generateBarData`: the range `0...count-1` stops the program
-- where `count` is 0.
unfoldable pub generate_data : (EntryPoint → ℤ) → List EntryPoint → Option Points
generate_data y [] = none
generate_data y (e ∷ es) = some (points_from y 0 (e ∷ es))

infixl 5 ◌>>=◌
abbrev ◌>>=◌ : {A B : Type 0} → Option A → (A → Option B) → Option B
none >>= k = none
some a >>= k = k a

-- The label of the axis: the date, a line break behind ten characters, the time. `none` where the
-- program stops.
unfoldable pub insert_break : Option EntryPoint → Option Text
insert_break none = none
insert_break (some e) =
    if ltb (length e.date_time) 10
    then none
    else some (take 10 e.date_time ++ b'\n' ∷ drop 10 e.date_time)

-- The index `Int(value) % entryPoints.count`, for `Int(value)`, which stops the program for a value
-- that is not finite or too large, and a count that is not 0. The remainder has the sign of the value,
-- and a negative index stops the program.
unfoldable pub label_index : Option ℤ → ℕ → Option ℕ
label_index none count = none
label_index (some (pos n)) count = some (n % count)
label_index (some (negsuc n)) count = if suc n % count == 0 then some 0 else none

abbrev pub entry_at : List EntryPoint → Option ℕ → Option EntryPoint
entry_at es none = none
entry_at es (some i) = get_elem? es i

unfoldable pub string_for_value : Option ℤ → List EntryPoint → Option Text
string_for_value value es =
    if length es == 0 then none else insert_break (entry_at es (label_index value (length es)))

module _ (any : Anything) (sqlite : Sqlite) where
  -- `chart` is `chartView.data`, the temperatures and the humidities; `removals` counts the calls
  -- of `removeValue`, and `shown` is what the HUD has shown.
  pub record Chart : Type 0 where
    pub entry_points : List EntryPoint
    pub should_hide_data : Bool
    pub chart : Option (Points × Points)
    pub removals : ℕ
    pub shown : List Hud
    pub connection : Connection sqlite

  unfoldable pub set_chart_data : Chart → Option Chart
  set_chart_data c = do
    line ← generate_data (λ e. e.temperature) c.entry_points
    bars ← generate_data (λ e. e.humidity) c.entry_points
    some (record c { chart = some (line, bars) })

  unfoldable pub update_chart_data : Chart → Option Chart
  update_chart_data c =
      if c.should_hide_data then some (record c { chart = none }) else set_chart_data c

  -- The observer of `.childAdded`, with `snapshot.value as? [String: Any]`.
  unfoldable pub append_entry : Option EntryPoint → Chart → Option Chart
  append_entry none c = some c
  append_entry (some e) c =
      update_chart_data
        (record c { entry_points = c.entry_points ++ e ∷ []; should_hide_data = false })

  abbrev pub entry_of : Option (Dict any) → Option EntryPoint
  entry_of none = none
  entry_of (some dict) = init? any dict

  unfoldable pub child_added : Option (Dict any) → Chart → Option Chart
  child_added value = append_entry (entry_of value)

  unfoldable pub clear_points_tapped : Chart → Option Chart
  clear_points_tapped c = do
    cleared ←
        update_chart_data (record c {
          entry_points = [];
          should_hide_data = true;
          shown = c.shown ++ progress ∷ [];
        })
    some (record cleared {
      removals = cleared.removals + 1;
      connection = clear_entrypoints sqlite cleared.connection;
    })

  -- The callback of `removeAll`.
  unfoldable pub removed : Bool → Chart → Option Chart
  removed error c =
      some
        (record c { shown = (if error then c.shown ++ failure ∷ [] else c.shown) ++ success ∷ [] })

  -- What the user and Firebase do.
  pub data Event : Type 0 where
    added : Option (Dict any) → Event
    cleared : Event
    answered : Bool → Event

  unfoldable pub handle : Event → Chart → Option Chart
  handle (added value) c = child_added value c
  handle cleared c = clear_points_tapped c
  handle (answered error) c = removed error c

  unfoldable pub run : List Event → Chart → Option Chart
  run [] c = some c
  run (e ∷ es) c = handle e c >>= run es

  abbrev pub labelled : Option (Points × Points) → Option Text → Chart → Option Chart
  labelled none text c = some c
  labelled (some points) none c = none
  labelled (some points) (some text) c = some c

  -- Charts draws the view, and asks its delegate for the label of a value on the axis. Without data it
  -- draws no axis.
  unfoldable pub draw_label : Option ℤ → Chart → Option Chart
  draw_label value c = labelled c.chart (string_for_value value c.entry_points) c

  -- What the user and Firebase do, and what Charts asks for.
  pub data Turn : Type 0 where
    event : Event → Turn
    label : Option ℤ → Turn

  unfoldable pub play : List Turn → Chart → Option Chart
  play [] c = some c
  play (event e ∷ turns) c = handle e c >>= play turns
  play (label value ∷ turns) c = draw_label value c >>= play turns

  -- The controller once its view is loaded.
  abbrev pub view_did_load : Connection sqlite → Chart
  view_did_load db = record {
    entry_points = [];
    should_hide_data = false;
    chart = none;
    removals = 0;
    shown = [];
    connection = db;
  }
