-- ===== src/App/Chart/Shown.antt =====
-- What the chart shows, whatever Firebase reports and in whatever order.
use mathlib.Core.List.{append-nil, append_assoc, map}
use native.Mathlib.Nat.{zero-add, add-zero}
use thermo_check.Common.{
  ℕ, zero, suc, ◌+◌, ◌≡◌, refl, sym, ap, ◌∙◌, ◌⊎◌, inl, inr, false, Option, none, some, List, [],
  ◌∷◌, ◌++◌, get_elem?, All, arith,
}
use thermo_check.Common.Int.{ℤ}
use thermo_check.App.EntryPoint.{EntryPoint, Anything, IsFaithful, dict, init?-dict}
use thermo_check.App.Sql.{Sqlite, Connection}
use thermo_check.App.Chart.{
  Points, points_from, generate_data, Chart, set_chart_data, update_chart_data, append_entry,
  entry_of, child_added, clear_points_tapped, removed, Event, added, cleared, answered, handle, run,
  view_did_load,
}

-- The point of an entry point, at its index.
abbrev pub point : (EntryPoint → ℤ) → ℕ → Option EntryPoint → Option (ℕ × ℤ)
point y i none = none
point y i (some e) = some (i, y e)

-- Point `i` is the number of entry point `i`.
abbrev pub IsPlot : (EntryPoint → ℤ) → List EntryPoint → Points → Type 0
IsPlot y es points = (i : ℕ) → get_elem? points i ≡ point y i (get_elem? es i)

get_elem?-points_from :
    (y : EntryPoint → ℤ) (k : ℕ) (es : List EntryPoint) (i : ℕ)
    → get_elem? (points_from y k es) i ≡ point y (k + i) (get_elem? es i)
unfolding points_from
get_elem?-points_from y k [] i = refl
get_elem?-points_from y k (e ∷ es) zero = rw (add-zero k)
get_elem?-points_from y k (e ∷ es) (suc i) =
    get_elem?-points_from y (k + 1) es i ∙ ap (λ n. point y n (get_elem? es i)) (omega arith)

points_from-IsPlot : (y : EntryPoint → ℤ) (es : List EntryPoint) → IsPlot y es (points_from y 0 es)
points_from-IsPlot y es i =
    get_elem?-points_from y 0 es i ∙ ap (λ n. point y n (get_elem? es i)) (zero-add i)

-- Without an entry point there is no chart, and otherwise it has the points of them all.
abbrev pub IsDrawn : List EntryPoint → Option (Points × Points) → Type 0
IsDrawn [] chart = chart ≡ none
IsDrawn (e ∷ es) chart =
    (line bars : Points) × (chart ≡ some (line, bars))
    × IsPlot (λ e. e.temperature) (e ∷ es) line
    × IsPlot (λ e. e.humidity) (e ∷ es) bars

IsDrawn-eq :
    (l : List EntryPoint) (e : EntryPoint) (es : List EntryPoint) (chart : Option (Points × Points))
    → l ≡ e ∷ es
    → IsDrawn (e ∷ es) chart
    → IsDrawn l chart
IsDrawn-eq l e es chart at h = rw at h

snoc :
    (es : List EntryPoint) (e : EntryPoint)
    → (f : EntryPoint) × (fs : List EntryPoint) × (es ++ e ∷ [] ≡ f ∷ fs)
snoc [] e = (e, [], refl)
snoc (f ∷ fs) e = (f, fs ++ e ∷ [], refl)

module _ (any : Anything) (sqlite : Sqlite) where
  -- What an event makes of the entry points.
  abbrev pub noticed : Option EntryPoint → List EntryPoint → List EntryPoint
  noticed none es = es
  noticed (some e) es = es ++ e ∷ []

  abbrev pub after : Event any sqlite → List EntryPoint → List EntryPoint
  after (added value) es = noticed (entry_of any sqlite value) es
  after cleared es = []
  after (answered error) es = es

  after_all : List (Event any sqlite) → List EntryPoint → List EntryPoint
  after_all [] es = es
  after_all (e ∷ events) es = after_all events (after e es)

  -- A call that does not stop the program, leaves these entry points and draws them.
  abbrev pub Draws : List EntryPoint → Option (Chart any sqlite) → Type 0
  Draws es r =
      (c : Chart any sqlite) × (r ≡ some c) × (c.entry_points ≡ es) × IsDrawn c.entry_points c.chart

  set_chart_data-Draws :
      (e : EntryPoint) (es : List EntryPoint) (c : Chart any sqlite)
      → c.entry_points ≡ e ∷ es
      → Draws (e ∷ es) (set_chart_data any sqlite c)
  unfolding set_chart_data generate_data
  set_chart_data-Draws e es c at = (
    record c {
      chart =
          some
            (points_from (λ e. e.temperature) 0 (e ∷ es), points_from (λ e. e.humidity) 0 (e ∷ es));
    },
    simp (at),
    at,
    IsDrawn-eq c.entry_points e es _ at
        (_, _, refl, points_from-IsPlot _ (e ∷ es), points_from-IsPlot _ (e ∷ es)),
  )

  append_entry-Draws :
      (o : Option EntryPoint) (c : Chart any sqlite)
      → IsDrawn c.entry_points c.chart
      → Draws (noticed o c.entry_points) (append_entry any sqlite o c)
  unfolding append_entry update_chart_data
  append_entry-Draws none c h = (c, refl, refl, h)
  append_entry-Draws (some e) c h =
      let (f, fs, at) = snoc c.entry_points e in
      let (c', done, same, drawn) =
        set_chart_data-Draws f fs
          (record c { entry_points = c.entry_points ++ e ∷ []; should_hide_data = false }) at in
      (c', done, same ∙ sym at, drawn)

  pub handle-Draws :
      (event : Event any sqlite) (c : Chart any sqlite)
      → IsDrawn c.entry_points c.chart
      → Draws (after event c.entry_points) (handle any sqlite event c)
  unfolding handle child_added clear_points_tapped update_chart_data removed
  handle-Draws (added value) c h = append_entry-Draws (entry_of any sqlite value) c h
  handle-Draws cleared c h = (_, refl, refl, refl)
  handle-Draws (answered error) c h = (_, refl, refl, h)

  run-Draws :
      (events : List (Event any sqlite)) (c : Chart any sqlite)
      → IsDrawn c.entry_points c.chart
      → Draws (after_all events c.entry_points) (run any sqlite events c)
  unfolding run after_all
  run-Draws [] c h = (c, refl, refl, h)
  run-Draws (event ∷ events) c h =
      let (c1, e1, at, drawn) = handle-Draws event c h in
      let (c2, e2, at2, drawn2) = run-Draws events c1 drawn in
      (c2, rw e1 e2, at2 ∙ ap (after_all events) at, drawn2)

  -- The entry points that Firebase has reported, without what is no entry point.
  abbrev pub joined : Option EntryPoint → List EntryPoint → List EntryPoint
  joined none es = es
  joined (some e) es = e ∷ es

  unfoldable pub reported : List (Event any sqlite) → List EntryPoint
  reported [] = []
  reported (added value ∷ events) = joined (entry_of any sqlite value) (reported events)
  reported (cleared ∷ events) = reported events
  reported (answered error ∷ events) = reported events

  -- The points are not cleared.
  abbrev pub IsUncleared : Event any sqlite → Type 0
  IsUncleared (added value) = Unit {0}
  IsUncleared cleared = ⊥
  IsUncleared (answered error) = Unit {0}

  -- Events from the start, or up to a tap on the button that clears the points.
  abbrev pub IsFresh : List (Event any sqlite) → Type 0
  IsFresh history =
      (history ≡ []) ⊎ ((before : List (Event any sqlite)) × (history ≡ before ++ cleared ∷ []))

  after_all-reported :
      (events : List (Event any sqlite)) (es : List EntryPoint)
      → All IsUncleared events
      → after_all events es ≡ es ++ reported events
  unfolding after_all reported
  after_all-reported [] es h = sym (append-nil es)
  after_all-reported (added value ∷ events) es h =
      after_all-reported events (after (added value) es) h.1
      ∙ joined_behind (entry_of any sqlite value)
    where
      joined_behind :
          (o : Option EntryPoint)
          → noticed o es ++ reported events ≡ es ++ joined o (reported events)
      joined_behind none = refl
      joined_behind (some e) = append_assoc es (e ∷ []) (reported events)
  after_all-reported (cleared ∷ events) es h = absurd h.0
  after_all-reported (answered error ∷ events) es h = after_all-reported events es h.1

  after_all-append :
      (h k : List (Event any sqlite)) (es : List EntryPoint)
      → after_all (h ++ k) es ≡ after_all k (after_all h es)
  unfolding after_all
  after_all-append [] k es = refl
  after_all-append (event ∷ h) k es = after_all-append h k (after event es)

  after_all-fresh :
      (history : List (Event any sqlite)) → IsFresh history → after_all history [] ≡ []
  unfolding after_all
  after_all-fresh history (inl e) = rw e
  after_all-fresh history (inr (before, e)) = rw e (after_all-append before (cleared ∷ []) [])

  -- From a loaded view, for any events up to a tap on the button that clears the points, or none,
  -- and any events without such a tap behind them, reports of Firebase and answers to removals in
  -- any order, the methods for these events do not stop the program, labels of the axis aside; then
  -- the entry points are those that Firebase has reported behind the tap, in their order and without
  -- the reports that are no entry point, and the chart is empty without any and otherwise has for
  -- the index of each, and for no other, its temperature in the line and its humidity in the bars.
  pub run-reported :
      (history events : List (Event any sqlite)) (db : Connection sqlite)
      → IsFresh history
      → All IsUncleared events
      → (c : Chart any sqlite) × (run any sqlite (history ++ events) (view_did_load any sqlite db)
          ≡ some c)
        × (c.entry_points ≡ reported events)
        × IsDrawn c.entry_points c.chart
  run-reported history events db fresh uncleared =
      let (c, e, at, drawn) = run-Draws (history ++ events) (view_did_load any sqlite db) refl in
      (
        c,
        e,
        at
            ∙ after_all-append history events []
            ∙ ap (after_all events) (after_all-fresh history fresh)
            ∙ after_all-reported events [] uncleared,
        drawn,
      )

  -- What Firebase reports of an entry point that was saved.
  abbrev pub report : EntryPoint → Event any sqlite
  report e = added (some (dict any e))

  module _ (faithful : IsFaithful any) where
    reported-report : (es : List EntryPoint) → reported (map report es) ≡ es
    unfolding reported
    reported-report [] = refl
    reported-report (e ∷ es) = rw (init?-dict any faithful e) (ap (λ l. e ∷ l) (reported-report es))

    IsUncleared-report : (es : List EntryPoint) → All IsUncleared (map report es)
    IsUncleared-report [] = tt
    IsUncleared-report (e ∷ es) = (tt, IsUncleared-report es)

    -- For casts that give a text and an integer back and from a loaded view, for any events up to a
    -- tap on the button that clears the points, or none, the reports of the dictionaries of any
    -- entry points behind them leave the controller with exactly these entry points, in their
    -- order, and the chart of them.
    pub run-report :
        (history : List (Event any sqlite)) (es : List EntryPoint) (db : Connection sqlite)
        → IsFresh history
        → (c : Chart any sqlite) × (run any sqlite
              (history ++ map report es)
              (view_did_load any sqlite db)
            ≡ some c)
          × (c.entry_points ≡ es)
          × IsDrawn es c.chart
    run-report history es db fresh =
        let (c, e, at, drawn) =
          run-reported history (map report es) db fresh (IsUncleared-report es) in
        let same = at ∙ reported-report es in (c, e, same, rw same at drawn)
