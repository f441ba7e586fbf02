-- ===== src/Tests/App.antt =====
-- The app's theorems at concrete arguments, with values for what is outside.
use mathlib.Core.List.{Perm, map}
use mathlib.Core.List.Perm
use thermo_check.Common.{
  ◌≡◌, refl, ◌⊎◌, inl, inr, Bool, true, false, Option, none, some, List, [], ◌∷◌, ◌++◌, arith,
}
use thermo_check.Common.Int.{ℤ, pos, negsuc}
use thermo_check.Base64.Buffers.{codes}
use thermo_check.App.EntryPoint.{
  Text, EntryPoint, Anything, IsFaithful, init?, cast, subscript, dict,
}
use thermo_check.App.Sql.{
  Sqlite, IsSqlite, Runs, created, inserted, deleted, create_table, insert, clear_entrypoints,
}
use thermo_check.App.Sql.Log.{Command, create, put, clear, Executed, execute, execute-Executed}
use thermo_check.App.AddPoint.{
  AddPoint, view_did_load, did_select_row, number_of_rows, range_from, at_row, select_temperature,
}
use thermo_check.App.AddPoint.Pickers.{
  Picked, loaded, picked, IsInRange, Picked-IsInRange, did_select_row-IsSome,
}
use thermo_check.App.AddPoint.Saved.{IsReliable, contents, accepted, save_all, save_all-contents}
use thermo_check.App.Chart.{
  Chart, Event, added, cleared, answered, run, Turn, event, label, play, handle, child_added,
  append_entry, update_chart_data, set_chart_data, generate_data, draw_label, string_for_value,
  label_index, insert_break, view_did_load as chart_loaded,
}
use thermo_check.App.Chart.Shown.{IsDrawn, report, run-report}
use thermo_check.App.Login.{
  Login, Form, view_did_load as login_loaded, login_tapped, sign_in_answered, here, later, tap,
}
use thermo_check.App.Register.{
  RegisterForm, view_did_load as register_loaded, here as at_first, later as then,
  tap as tap_register, register_tapped,
}
use thermo_check.App.Register.Busy.{IsBusy, Moves-IsBusy}
use thermo_check.App.Session.{
  main, login, Session, fetch, leave, work, expire, happen, present, show_next, is_usable, to_login,
  fetch_current_user, sign_out, run as run_session,
}
use thermo_check.App.Session.SignedOut.{mains, run-sign_out}
use thermo_check.App.Login.Once.{IsOnce, Reach-IsOnce}
use thermo_check.App.Login.Settles.{Works, answer-IsSettled}

abbrev warm : EntryPoint
warm = record { date_time = codes "10/05/2021 09:30 AM"; temperature = pos 24; humidity = pos 60 }

abbrev cold : EntryPoint
cold = record { date_time = codes "12/24/2021 11:00 PM"; temperature = negsuc 3; humidity = pos 80 }

-- Values that are texts or integers.
abbrev as_text : Text ⊎ ℤ → Option Text
as_text (inl s) = some s
as_text (inr n) = none

abbrev as_number : Text ⊎ ℤ → Option ℤ
as_number (inl s) = none
as_number (inr n) = some n

abbrev plain : Anything
plain = record {
  Value = Text ⊎ ℤ;
  of_string = inl;
  of_int = inr;
  as_string = as_text;
  as_int = as_number;
}

plain-IsFaithful : IsFaithful plain
plain-IsFaithful = record { string_back = λ s. refl; int_back = λ n. refl }

-- A table in memory, which throws where there is no table.
abbrev put_row : EntryPoint → Option (List EntryPoint) → Bool × Option (List EntryPoint)
put_row e none = (true, none)
put_row e (some rows) = (false, some (rows ++ e ∷ []))

abbrev in_memory : Sqlite
in_memory = record {
  Db = Option (List EntryPoint);
  run_create = λ db. (false, created db);
  run_insert = put_row;
  run_delete = λ db. (false, deleted db);
  prepare = λ db. db;
  rows = λ db. db;
}

in_memory-IsSqlite : IsSqlite in_memory
in_memory-IsSqlite = record {
  creates = λ db. inl (refl, refl);
  inserts = row_put;
  deletes = λ db. inl (refl, refl);
  needs_table = λ e db h. rw h;
  queries = found;
}
  where
    row_put :
        (e : EntryPoint) (db : Option (List EntryPoint))
        → Runs (λ db. db) (inserted e) db (put_row e db)
    row_put e none = inr (refl, refl)
    row_put e (some rows) = inl (refl, refl)

    found :
        (db : Option (List EntryPoint))
        → (db ≡ none)
          ⊎ ((table result : List EntryPoint) × (db ≡ some table)
              × (db ≡ some result)
              × Perm result table)
    found none = inl refl
    found (some rows) = inr (rows, rows, refl, refl, Perm.refl rows)

abbrev commands : List Command
commands = create ∷ put warm ∷ clear ∷ put cold ∷ []

execute-Executed_example : Executed in_memory commands none
execute-Executed_example = execute-Executed in_memory in_memory-IsSqlite commands none

-- The first insertion comes before there is a table.
commands_run :
    execute in_memory (put cold ∷ commands) (some none)
    ≡ (some false ∷ some true ∷ some true ∷ [], some (some (cold ∷ [])))
unfolding execute create_table insert clear_entrypoints
commands_run = refl

abbrev warmest : AddPoint
warmest = record view_did_load { temperature_selected = pos 50; temperature_gauge = pos 50 }

Picked-IsInRange_example : IsInRange warmest
unfolding did_select_row number_of_rows view_did_load range_from at_row select_temperature
Picked-IsInRange_example = Picked-IsInRange (picked 1 60 loaded (omega arith) refl)

did_select_row-IsSome_example :
    (c : AddPoint) × (did_select_row 1 60 view_did_load ≡ some c) × Picked c
unfolding number_of_rows view_did_load range_from
did_select_row-IsSome_example = did_select_row-IsSome 1 60 loaded (omega arith)

abbrev before : List (Event plain in_memory)
before = report plain in_memory warm ∷ cleared ∷ []

abbrev behind_it : List (Event plain in_memory)
behind_it = added none ∷ report plain in_memory cold ∷ answered true ∷ []

abbrev turns : List (Turn plain in_memory)
turns =
    event (report plain in_memory warm)
    ∷ label (some (pos 0))
    ∷ event cleared
    ∷ event (added none)
    ∷ label (some (pos 3))
    ∷ event (report plain in_memory cold)
    ∷ label (some (pos 3))
    ∷ event (answered true)
    ∷ []

abbrev short : EntryPoint
short = record { date_time = codes "9:30"; temperature = pos 24; humidity = pos 60 }

-- The label of an entry point with a short text stops the program.
short_label :
    play plain in_memory
      (event (report plain in_memory short) ∷ label (some (pos 0)) ∷ [])
      (chart_loaded plain in_memory none)
    ≡ none
unfolding init? cast subscript dict play handle child_added append_entry update_chart_data
    set_chart_data generate_data draw_label string_for_value label_index insert_break
short_label = refl

run-report_example :
    (c : Chart plain in_memory) × (run plain in_memory
        (before ++ map (report plain in_memory) (warm ∷ cold ∷ []))
        (chart_loaded plain in_memory none)
      ≡ some c)
    × (c.entry_points ≡ warm ∷ cold ∷ [])
    × IsDrawn (warm ∷ cold ∷ []) c.chart
run-report_example =
    run-report plain in_memory plain-IsFaithful before (warm ∷ cold ∷ []) none
      (inr (report plain in_memory warm ∷ [], refl))

abbrev form : Form
form = record { email = codes "a@b.org"; password = codes "secret" }

abbrev any_email : Text → Bool
any_email email = true

abbrev waiting : Login
waiting = login_tapped any_email form login_loaded

Reach-IsOnce_example : IsOnce waiting
Reach-IsOnce_example = Reach-IsOnce (later here (tap form refl))

answer-IsSettled_example :
    (l : Login) × Works (sign_in_answered false waiting) l
    × (l.tasks ≡ [])
    × (l.signing ≡ 0)
    × (l.enabled ≡ true)
unfolding login_tapped
answer-IsSettled_example =
    answer-IsSettled any_email waiting false (later here (tap form refl)) (omega arith)

in_memory-IsReliable : IsReliable in_memory
in_memory-IsReliable = record { creates = λ db. refl; inserts = λ e db table at. rw at refl }

abbrev saves : List (EntryPoint × Bool)
saves = (warm, false) ∷ (short, true) ∷ (cold, false) ∷ []

save_all-contents_example :
    (db : Option (List EntryPoint)) × (save_all in_memory saves (some none) ≡ some db)
    × (contents db ≡ [] ++ accepted saves)
save_all-contents_example =
    save_all-contents in_memory in_memory-IsSqlite in_memory-IsReliable saves none

abbrev filled : RegisterForm
filled = record {
  email = codes "a@b.org";
  password = codes "secret";
  confirm_password = codes "secret";
}

Moves-IsBusy_example : IsBusy (register_tapped any_email filled register_loaded)
Moves-IsBusy_example =
    Moves-IsBusy any_email (register_tapped any_email filled register_loaded)
      (then at_first (tap_register filled))

abbrev signed_in : Session
signed_in = record { current_user = true; token = some false; queue = []; presented = main ∷ [] }

abbrev signed_out : Session
signed_out = record { current_user = false; token = none; queue = []; presented = main ∷ [] }

-- The login screen is presented twice.
two_logins :
    (run_session (fetch false false ∷ work ∷ work ∷ []) signed_out).presented
    ≡ login ∷ login ∷ main ∷ []
unfolding run_session happen present show_next fetch_current_user is_usable to_login sign_out
two_logins = refl

run-sign_out_example :
    mains
      (run_session
        (work ∷ fetch false true ∷ expire ∷ work ∷ fetch true false ∷ leave false ∷ [])
        (sign_out false signed_in)).presented
    ≡ mains signed_in.presented
unfolding mains
run-sign_out_example =
    run-sign_out (work ∷ fetch false true ∷ expire ∷ work ∷ fetch true false ∷ leave false ∷ [])
      signed_in refl
