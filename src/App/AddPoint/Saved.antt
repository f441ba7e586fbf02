-- ===== src/App/AddPoint/Saved.antt =====
-- What is kept on the device of the entry points that are saved.
use mathlib.Core.List.{append-nil, append_assoc}
use thermo_check.Common.{
  ◌≡◌, refl, sym, ap, ◌∙◌, inl, inr, Bool, true, false, Option, none, some, List, [], ◌∷◌, ◌++◌,
}
use thermo_check.App.EntryPoint.{EntryPoint}
use thermo_check.App.Sql.{
  Sqlite, IsSqlite, Runs, Connection, created, inserted, createtable, create_table, insert,
}
use thermo_check.App.AddPoint.{hidden, Saving, save_sql, save_tapped, save_answered}

-- The entry points of a table, none without one.
abbrev pub contents : Option (List EntryPoint) → List EntryPoint
contents none = []
contents (some table) = table

-- No statement throws but an insertion without a table.
pub record IsReliable (sqlite : Sqlite) : Type 0 where
  pub creates : (db : sqlite.Db) → (sqlite.run_create db).0 ≡ false
  pub inserts :
      (e : EntryPoint) (db : sqlite.Db) (table : List EntryPoint)
      → sqlite.rows db ≡ some table
      → (sqlite.run_insert e db).0 ≡ false

-- The saved entry points that Firebase answers without an error.
unfoldable pub accepted : List (EntryPoint × Bool) → List EntryPoint
accepted [] = []
accepted ((e, true) ∷ saves) = accepted saves
accepted ((e, false) ∷ saves) = e ∷ accepted saves

module _ (sqlite : Sqlite) where
  open sqlite use {Db, rows, run_create, run_insert}

  -- The view for a new entry point, each time it is opened.
  abbrev pub opened : Connection sqlite → Saving sqlite
  opened db = record { connection = db; hud = hidden; dismissed = false }

  -- Entry points are saved one behind the other, with whether Firebase answers with an error.
  unfoldable pub save_all : List (EntryPoint × Bool) → Connection sqlite → Connection sqlite
  save_all [] db = db
  save_all ((e, error) ∷ saves) db =
      save_all saves (save_answered sqlite e error (save_tapped sqlite (opened db))).connection

  module _ (sound : IsSqlite sqlite) (reliable : IsReliable sqlite) where
    did_not_throw :
        (effect : Option (List EntryPoint) → Option (List EntryPoint)) (db : Db) (r : Bool × Db)
        → Runs rows effect db r
        → r.0 ≡ false
        → rows r.1 ≡ effect (rows db)
    did_not_throw effect db r (inl (fine, at)) e = at
    did_not_throw effect db r (inr (threw, at)) e = absurd (cc)

    created-contents : (table : Option (List EntryPoint)) → created table ≡ some (contents table)
    created-contents none = refl
    created-contents (some table) = refl

    -- The table is made where there is none, so the insertion has one.
    save_sql-contents :
        (e : EntryPoint) (db : Db)
        → (db' : Db) × (save_sql sqlite e (some db) ≡ some db')
          × (rows db' ≡ some (contents (rows db) ++ e ∷ []))
    unfolding save_sql createtable create_table insert
    save_sql-contents e db = (
      (run_insert e (run_create db).1).1,
      refl,
      did_not_throw (inserted e) _ _ (sound.inserts e (run_create db).1)
            (reliable.inserts e (run_create db).1 (contents (rows db)) made)
          ∙ ap (inserted e) made,
    )
      where
        made : rows (run_create db).1 ≡ some (contents (rows db))
        made =
            did_not_throw created db _ (sound.creates db) (reliable.creates db)
            ∙ created-contents (rows db)

    -- For a SQLite in which each statement has its effect on the table and does not throw, except
    -- an insertion where there is no table, and a connection to any database, with a table or
    -- without: after any entry points have been saved one behind the other, with any answers of
    -- Firebase, the table holds what it held, followed by the entry points that Firebase has
    -- answered without an error, in the order in which they were saved.
    pub save_all-contents :
        (saves : List (EntryPoint × Bool)) (db : Db)
        → (db' : Db) × (save_all saves (some db) ≡ some db')
          × (contents (rows db') ≡ contents (rows db) ++ accepted saves)
    unfolding save_all save_answered save_tapped accepted
    save_all-contents [] db = (db, refl, sym (append-nil (contents (rows db))))
    save_all-contents ((e, true) ∷ saves) db = save_all-contents saves db
    save_all-contents ((e, false) ∷ saves) db =
        let (db1, one, at) = save_sql-contents e db in
        let (db2, rest, kept) = save_all-contents saves db1 in
        (
          db2,
          ap (save_all saves) one ∙ rest,
          kept
              ∙ ap (λ t. contents t ++ accepted saves) at
              ∙ append_assoc (contents (rows db)) (e ∷ []) (accepted saves),
        )
