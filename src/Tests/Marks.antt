-- ===== src/Tests/Marks.antt =====
-- The bitmap of required fields at a concrete list of marks.
use mathlib.Core.Logic.{◌↔◌}
use thermo_check.Common.{ℕ, ◌<◌, ◌≡◌, refl, true, false, [], ◌∷◌, arith}
use thermo_check.Messages.Decode.{set_seen, all_seen, whole_words}
use thermo_check.Messages.Marks.{marked, elem}
use thermo_check.Messages.Missing.{all_seen-marked}

-- Of 34 required fields only the last has been seen.
last_alone : all_seen (marked (33 ∷ [])) 34 ≡ false
unfolding all_seen marked set_seen whole_words
last_alone = refl

-- Three required fields, seen in another order.
all_seen-marked_example :
    (all_seen (marked (2 ∷ 0 ∷ 1 ∷ [])) 3 ≡ true)
    ↔ ((j : ℕ) → j < 3 → elem j (2 ∷ 0 ∷ 1 ∷ []) ≡ true)
all_seen-marked_example = all_seen-marked 3 (2 ∷ 0 ∷ 1 ∷ []) (omega arith) (omega arith)
