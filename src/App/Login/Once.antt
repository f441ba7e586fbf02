-- ===== src/App/Login/Once.antt =====
-- "Can't click Login twice".
use thermo_check.Common.{
  ℕ, ◌+◌, ◌≤◌, ◌<◌, ◌≡◌, refl, ◌⊎◌, inr, Bool, true, false, Option, none, some, List, [], ◌∷◌, ◌++◌,
  arith,
}
use thermo_check.App.EntryPoint.{Text}
use thermo_check.App.Login.{
  Task, signed_in, refused, facebook_signed_in, facebook_refused, instantiate_main, present_main,
  Login, Form, view_did_load, login_tapped, sign_in_answered, did_complete, facebook_answered,
  Answer, error, result, neither, perform, Step, tap, answer, complete, answer_facebook, work,
  Reach, here, later,
}

-- Answers to sign-ins that the controller has not seen.
weight : Task → ℕ
weight signed_in = 1
weight refused = 1
weight _ = 0

abbrev pub answers : List Task → ℕ
unfolding weight
answers [] = 0
answers (t ∷ ts) = weight t + answers ts

answers-append : (ts : List Task) (t : Task) → answers (ts ++ t ∷ []) ≡ answers ts + weight t
unfolding answers
answers-append [] t = omega arith
answers-append (s ∷ ts) t = omega (arith, answers-append ts t)

-- The button is enabled only with no sign-in under way, and never is there more than one.
pub record IsOnce (l : Login) : Type 0 where
  pub one : l.signing + answers l.tasks ≤ 1
  pub free : (l.enabled ≡ false) ⊎ (l.signing + answers l.tasks ≡ 0)

login_tapped-IsOnce :
    (is_email : Text → Bool) (form : Form) {l : Login}
    → IsOnce l
    → l.enabled ≡ true
    → IsOnce (login_tapped is_email form l)
unfolding login_tapped
login_tapped-IsOnce is_email form v e = ground arith

sign_in_answered-IsOnce :
    (status : Bool) {l : Login} → IsOnce l → 0 < l.signing → IsOnce (sign_in_answered status l)
unfolding sign_in_answered weight
sign_in_answered-IsOnce true {l} v h = ground (arith, answers-append l.tasks signed_in)
sign_in_answered-IsOnce false {l} v h = ground (arith, answers-append l.tasks refused)

did_complete-IsOnce :
    (cancelled : Option Bool) (token : Bool) {l l' : Login}
    → IsOnce l
    → did_complete cancelled token l ≡ some l'
    → IsOnce l'
unfolding did_complete
did_complete-IsOnce (some true) token v e = ground arith
did_complete-IsOnce (some false) token v e = ground arith
did_complete-IsOnce none token v e = ground arith

facebook_answered-IsOnce :
    (given : Answer) {l : Login} → IsOnce l → IsOnce (facebook_answered given l)
unfolding facebook_answered weight
facebook_answered-IsOnce error {l} v = ground (arith, answers-append l.tasks facebook_refused)
facebook_answered-IsOnce result {l} v = ground (arith, answers-append l.tasks facebook_signed_in)
facebook_answered-IsOnce neither v = ground arith

perform-IsOnce :
    (task : Task) (rest : List Task) (l : Login)
    → l.signing + (weight task + answers rest) ≤ 1
    → (l.enabled ≡ false) ⊎ (l.signing + (weight task + answers rest) ≡ 0)
    → IsOnce (perform task (record l { tasks = rest }))
unfolding perform weight
perform-IsOnce signed_in rest l one free = ground (arith, answers-append rest instantiate_main)
perform-IsOnce refused rest l one free = ground arith
perform-IsOnce facebook_signed_in rest l one free =
    ground (arith, answers-append rest instantiate_main)
perform-IsOnce facebook_refused rest l one free = ground arith
perform-IsOnce instantiate_main rest l one free = ground (arith, answers-append rest present_main)
perform-IsOnce present_main rest l one free = ground arith

Step-IsOnce : {is_email : Text → Bool} {l l' : Login} → Step is_email l l' → IsOnce l → IsOnce l'
unfolding answers
Step-IsOnce {is_email} (tap form e) v = login_tapped-IsOnce is_email form v e
Step-IsOnce (answer status h) v = sign_in_answered-IsOnce status v h
Step-IsOnce (complete cancelled token e) v = did_complete-IsOnce cancelled token v e
Step-IsOnce (answer_facebook given h) v = facebook_answered-IsOnce given v
Step-IsOnce {l = l} (work task rest e) v =
    perform-IsOnce task rest l (rw e at v.one) (rw e at v.free)

view_did_load-IsOnce : IsOnce view_did_load
unfolding answers
view_did_load-IsOnce = record { one = omega arith; free = inr refl }

-- In every state that the login screen can reach, with taps on its button while that is enabled,
-- answers of Firebase and Facebook and blocks of the main queue in any order, the sign-ins with an
-- e-mail address that Firebase has not answered and the blocks on the queue that answer one are
-- together at most one, and none where the button is enabled.
pub Reach-IsOnce : {is_email : Text → Bool} {l : Login} → Reach is_email view_did_load l → IsOnce l
Reach-IsOnce here = view_did_load-IsOnce
Reach-IsOnce (later r s) = Step-IsOnce s (Reach-IsOnce r)
