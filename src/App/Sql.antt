-- ===== src/App/Sql.antt =====
-- database/SQLCommands.swift and database/DatabaseSQL.swift: the entry points on the device.
pub mod Log
use mathlib.Core.List.{Perm}
use thermo_check.Common.{
  ◌≡◌, ◌⊎◌, Bool, true, false, Option, none, some, List, [], ◌∷◌, ◌++◌, if◌then◌else◌,
}
use thermo_check.App.EntryPoint.{EntryPoint}

-- What SQLite.swift does for the statements of this file: `run` says whether it threw, and `rows` is
-- the content of the table, `none` where there is no table.
pub record Sqlite : Type 1 where
  pub Db : Type 0
  pub run_create : Db → Bool × Db
  pub run_insert : EntryPoint → Db → Bool × Db
  pub run_delete : Db → Bool × Db
  pub prepare : Db → Option (List EntryPoint)
  pub rows : Db → Option (List EntryPoint)

-- The table after a statement that did not throw.
abbrev pub created : Option (List EntryPoint) → Option (List EntryPoint)
created none = some []
created (some rows) = some rows

abbrev pub inserted : EntryPoint → Option (List EntryPoint) → Option (List EntryPoint)
inserted e none = none
inserted e (some rows) = some (rows ++ e ∷ [])

abbrev pub deleted : Option (List EntryPoint) → Option (List EntryPoint)
deleted none = none
deleted (some rows) = some []

-- A statement changes the table as SQL has it, or throws and leaves it as it was.
abbrev pub Runs :
    {Db : Type 0} (rows : Db → Option (List EntryPoint))
    (effect : Option (List EntryPoint) → Option (List EntryPoint))
    → Db
    → Bool × Db
    → Type 0
Runs rows effect db r =
    ((r.0 ≡ false) × (rows r.1 ≡ effect (rows db))) ⊎ ((r.0 ≡ true) × (rows r.1 ≡ rows db))

-- The documented behaviour: each statement runs or throws, an insert into no table throws, and a
-- query gives the rows of the table in some order, or throws.
pub record IsSqlite (sqlite : Sqlite) : Type 0 where
  pub creates : (db : sqlite.Db) → Runs sqlite.rows created db (sqlite.run_create db)
  pub inserts :
      (e : EntryPoint) (db : sqlite.Db) → Runs sqlite.rows (inserted e) db (sqlite.run_insert e db)
  pub deletes : (db : sqlite.Db) → Runs sqlite.rows deleted db (sqlite.run_delete db)
  pub needs_table :
      (e : EntryPoint) (db : sqlite.Db) → sqlite.rows db ≡ none → (sqlite.run_insert e db).0 ≡ true
  pub queries :
      (db : sqlite.Db)
      → (sqlite.prepare db ≡ none)
        ⊎ ((table result : List EntryPoint) × (sqlite.rows db ≡ some table)
            × (sqlite.prepare db ≡ some result)
            × Perm result table)

module _ (sqlite : Sqlite) where
  open sqlite use {Db, run_create, run_insert, run_delete, prepare, rows}

  -- `DatabaseSQL.shared.db`.
  abbrev pub Connection : Type 0
  Connection = Option Db

  unfoldable pub create_table : Connection → Connection
  create_table none = none
  create_table (some db) = some (run_create db).1

  -- `DatabaseSQL.createtable`.
  unfoldable pub createtable : Connection → Connection
  createtable db = create_table db

  -- `nil` without a connection, and otherwise whether the statement did not throw.
  unfoldable pub insert : EntryPoint → Connection → Option Bool × Connection
  insert e none = (none, none)
  insert e (some db) = let r = run_insert e db in (some (if r.0 then false else true), some r.1)

  unfoldable pub get_entry_points : Connection → Option (List EntryPoint)
  get_entry_points none = none
  get_entry_points (some db) = elim (prepare db) [ none ↦ some [] | some found ↦ some found ]

  unfoldable pub clear_entrypoints : Connection → Connection
  clear_entrypoints none = none
  clear_entrypoints (some db) = some (run_delete db).1
