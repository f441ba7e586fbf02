-- ===== src/App/Register/Busy.antt =====
-- The HUD shows progress only while something is under way.
use thermo_check.Common.{
  ℕ, ◌+◌, ◌<◌, ◌≡◌, ◌≢◌, ap, ◌⊎◌, inl, inr, ltb, Bool, true, false, Bool-cases, List, [], ◌∷◌, ◌++◌,
  length, arith,
}
use thermo_check.App.EntryPoint.{Text}
use thermo_check.App.AddPoint.{progress}
use thermo_check.App.Register.{
  Job, welcome, try_again, instantiate, Register, RegisterForm, view_did_load, elements_equal,
  register_tapped, create_answered, login_answered, cancel_tapped, do_job, Move, tap, cancel,
  answer_create, answer_login, work, Moves, here, later,
}

-- Blocks that have an outcome to show.
outcomes : List Job → ℕ
outcomes [] = 0
outcomes (welcome ∷ js) = 1 + outcomes js
outcomes (try_again ∷ js) = 1 + outcomes js
outcomes (instantiate main ∷ js) = outcomes js

outcomes-append :
    (js : List Job) (j : Job) → outcomes (js ++ j ∷ []) ≡ outcomes js + outcomes (j ∷ [])
unfolding outcomes
outcomes-append [] j = omega arith
outcomes-append (i ∷ js) j = ground (arith, outcomes-append js j)

abbrev pub under_way : Register → ℕ
unfolding outcomes
under_way r = r.creating + r.signing + outcomes r.jobs

abbrev pub IsBusy : Register → Type 0
IsBusy r = (r.shown ≢ progress) ⊎ (0 < under_way r)

register_tapped-IsBusy :
    (is_email : Text → Bool) (f : RegisterForm) (r : Register)
    → IsBusy r
    → IsBusy (register_tapped is_email f r)
unfolding register_tapped outcomes
register_tapped-IsBusy is_email f r b = elim (Bool-cases (is_email f.email)) [
  | inl e ↦ elim (Bool-cases (ltb (length f.password) 6)) [
    | inl short ↦ rw (e, short) (inl (λ p. cc))
    | inr long ↦ elim (Bool-cases (elements_equal f.password f.confirm_password)) [
      | inl same ↦ rw (e, long, same) (inr (omega arith))
      | inr other ↦ rw (e, long, other) (inl (λ p. cc))
    ]
  ]
  | inr e ↦ rw e (inl (λ p. cc))
]

cancel_tapped-IsBusy : (r : Register) → IsBusy r → IsBusy (cancel_tapped r)
unfolding cancel_tapped outcomes
cancel_tapped-IsBusy r (inl quiet) = inl quiet
cancel_tapped-IsBusy r (inr busy) = inr (ground (arith, outcomes-append r.jobs (instantiate false)))

create_answered-IsBusy :
    (status : Bool) (r : Register) → IsBusy r → IsBusy (create_answered status r)
unfolding create_answered outcomes
create_answered-IsBusy true r b = inr (omega arith)
create_answered-IsBusy false r b = inl (λ p. cc)

login_answered-IsBusy : (status : Bool) (r : Register) → IsBusy (login_answered status r)
unfolding login_answered outcomes
login_answered-IsBusy true r = inr (ground (arith, outcomes-append r.jobs welcome))
login_answered-IsBusy false r = inr (ground (arith, outcomes-append r.jobs try_again))

do_job-IsBusy :
    (job : Job) (rest : List Job) (r : Register)
    → r.jobs ≡ job ∷ rest
    → IsBusy r
    → IsBusy (do_job job (record r { jobs = rest }))
unfolding do_job outcomes
do_job-IsBusy welcome rest r e b = inl (λ p. cc)
do_job-IsBusy try_again rest r e b = inl (λ p. cc)
do_job-IsBusy (instantiate true) rest r e (inl quiet) = inl quiet
do_job-IsBusy (instantiate true) rest r e (inr busy) = inr (ground (arith, ap outcomes e))
do_job-IsBusy (instantiate false) rest r e (inl quiet) = inl quiet
do_job-IsBusy (instantiate false) rest r e (inr busy) = inr (ground (arith, ap outcomes e))

Move-IsBusy : {is_email : Text → Bool} {r s : Register} → Move is_email r s → IsBusy r → IsBusy s
Move-IsBusy {is_email = is_email} {r = r} (tap f) b = register_tapped-IsBusy is_email f r b
Move-IsBusy {r = r} cancel b = cancel_tapped-IsBusy r b
Move-IsBusy {r = r} (answer_create status h) b = create_answered-IsBusy status r b
Move-IsBusy {r = r} (answer_login status h) b = login_answered-IsBusy status r
Move-IsBusy {r = r} (work job rest e) b = do_job-IsBusy job rest r e b

-- In every state that the registration screen can reach, for any predicate of e-mail addresses,
-- with taps on its buttons, answers of Firebase and blocks of the main queue in any order, where
-- the HUD shows progress there is a registration or a sign-in that Firebase has not answered, or a
-- block on the queue that shows how one has ended.
pub Moves-IsBusy :
    (is_email : Text → Bool) (r : Register) → Moves is_email view_did_load r → IsBusy r
Moves-IsBusy is_email r here = inl (λ p. cc)
Moves-IsBusy is_email r (later {s = s} before move) =
    Move-IsBusy move (Moves-IsBusy is_email s before)
