-- ===== src/App/Sql/Log.antt =====
-- The table is a log of entry points: what each command of SQLCommands.swift does to it.
use mathlib.Core.List.{Perm}
use thermo_check.Common.{
  ◌≡◌, ap, ◌∙◌, ◌⊎◌, inl, inr, Bool, true, false, Option, none, some, List, [], ◌∷◌, refl,
  if◌then◌else◌,
}
use thermo_check.App.EntryPoint.{EntryPoint}
use thermo_check.App.Sql.{
  Sqlite, IsSqlite, Runs, created, inserted, deleted, Connection, create_table, insert,
  get_entry_points, clear_entrypoints,
}

-- A call of one of the static functions.
pub data Command : Type 0 where
  create : Command
  put : EntryPoint → Command
  clear : Command

-- What a statement that does not throw makes of the table.
abbrev pub effect : Command → Option (List EntryPoint) → Option (List EntryPoint)
effect create = created
effect (put e) = inserted e
effect clear = deleted

-- The table behind commands, each with whether its statement threw: those that did leave it.
unfoldable pub replay : List (Command × Bool) → Option (List EntryPoint) → Option (List EntryPoint)
replay [] table = table
replay ((c, true) ∷ cs) table = replay cs table
replay ((c, false) ∷ cs) table = replay cs (effect c table)

-- What the insertions among them return.
unfoldable pub answers : List (Command × Bool) → List (Option Bool)
answers [] = []
answers ((create, threw) ∷ cs) = answers cs
answers ((put e, threw) ∷ cs) = some (if threw then false else true) ∷ answers cs
answers ((clear, threw) ∷ cs) = answers cs

module _ (sqlite : Sqlite) where
  open sqlite use {Db, rows, run_create, run_insert, run_delete, prepare}

  -- The calls, with what the insertions return.
  unfoldable pub execute : List Command → Connection sqlite → List (Option Bool) × Connection sqlite
  execute [] db = ([], db)
  execute (create ∷ cs) db = execute cs (create_table sqlite db)
  execute (put e ∷ cs) db =
      let r = insert sqlite e db in let later = execute cs r.1 in (r.0 ∷ later.0, later.1)
  execute (clear ∷ cs) db = execute cs (clear_entrypoints sqlite db)

  -- SQLite's own run of a command's statement, and which statements throw.
  abbrev pub statement : Command → Db → Bool × Db
  statement create db = run_create db
  statement (put e) db = run_insert e db
  statement clear db = run_delete db

  unfoldable pub trace : List Command → Db → List (Command × Bool)
  trace [] db = []
  trace (c ∷ cs) db = (c, (statement c db).0) ∷ trace cs (statement c db).1

  -- A query that throws gives an empty list, and another one the rows of the table in some order.
  abbrev pub Queried : Db → Type 0
  Queried db =
      ((prepare db ≡ none) × (get_entry_points sqlite (some db) ≡ some []))
      ⊎ ((table found : List EntryPoint) × (rows db ≡ some table)
          × (get_entry_points sqlite (some db) ≡ some found)
          × Perm found table)

  -- Where the commands lead.
  abbrev pub Executed : List Command → Db → Type 0
  Executed cs db =
      (db' : Db) × (execute cs (some db) ≡ (answers (trace cs db), some db'))
      × (rows db' ≡ replay (trace cs db) (rows db))
      × Queried db'

  module _ (sound : IsSqlite sqlite) where
    queried : (db : Db) → Queried db
    unfolding get_entry_points
    queried db = elim (sound.queries db) [
      | inl threw ↦ inl (threw, rw (threw, get_entry_points))
      | inr (table, result, at, q, same) ↦ inr (table, result, at, rw (q, get_entry_points), same)
    ]

    runs : (c : Command) (db : Db) → Runs rows (effect c) db (statement c db)
    runs create db = sound.creates db
    runs (put e) db = sound.inserts e db
    runs clear db = sound.deletes db

    replay-trace :
        (c : Command) (cs : List Command) (db : Db)
        → replay (trace cs (statement c db).1) (rows (statement c db).1)
          ≡ replay (trace (c ∷ cs) db) (rows db)
    unfolding replay trace
    replay-trace c cs db = elim (runs c db) [
      | inl (fine, at) ↦ rw (fine, at)
      | inr (threw, at) ↦ rw (threw, at)
    ]

    -- For a SQLite in which each statement has its effect on the table or throws and leaves it, and
    -- a query gives the rows of the table in some order or throws, and any calls of `createTable`,
    -- `insert` and `clearEntrypoints` on a connection, whether there is a table or not: in the
    -- order of the calls SQLite runs the statement of each, the table is in the end as the effects
    -- of those that do not throw make it, and the insertions return true where SQLite does not
    -- throw and false where it does, never nil; then `getEntryPoints` returns an empty list if the
    -- query throws, and otherwise the rows of the table in some order.
    pub execute-Executed : (cs : List Command) (db : Db) → Executed cs db
    unfolding execute insert create_table clear_entrypoints answers replay trace
    execute-Executed [] db = (db, refl, refl, queried db)
    execute-Executed (create ∷ cs) db =
        let (db', done, at, found) = execute-Executed cs (run_create db).1 in
        (db', done, at ∙ replay-trace create cs db, found)
    execute-Executed (put p ∷ cs) db =
        let (db', done, at, found) = execute-Executed cs (run_insert p db).1 in
        (
          db',
          ap (λ r. (some (if (run_insert p db).0 then false else true) ∷ r.0, r.1)) done,
          at ∙ replay-trace (put p) cs db,
          found,
        )
    execute-Executed (clear ∷ cs) db =
        let (db', done, at, found) = execute-Executed cs (run_delete db).1 in
        (db', done, at ∙ replay-trace clear cs db, found)
