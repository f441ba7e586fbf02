-- ===== src/App/Register.antt =====
-- RegisterViewController.swift with utils/Authentication.swift: making an account, and signing in to it.
pub mod Busy
use thermo_check.Common.{
  ℕ, ◌+◌, ◌-◌, ◌<◌, ◌≡◌, ltb, Bool, true, false, ◌&&◌, ◌==◌, List, [], ◌∷◌, ◌++◌, length,
  if◌then◌else◌,
}
use thermo_check.App.EntryPoint.{Text}
use thermo_check.App.AddPoint.{Hud, hidden, progress, success, failure}

-- The blocks of the completion of `login` on the main queue, and that of a call of the router.
pub data Job : Type 0 where
  welcome try_again : Job
  instantiate : Bool → Job

-- `creating` and `signing` count the calls of `createUser` and of `signIn` that Firebase has not
-- answered; `to_main` and `to_login` tell which screens have been asked for.
pub record Register : Type 0 where
  pub creating : ℕ
  pub signing : ℕ
  pub jobs : List Job
  pub shown : Hud
  pub to_main : Bool
  pub to_login : Bool

-- What the text fields hold, which is never `nil`.
pub record RegisterForm : Type 0 where
  pub email : Text
  pub password : Text
  pub confirm_password : Text

abbrev pub view_did_load : Register
view_did_load = record {
  creating = 0;
  signing = 0;
  jobs = [];
  shown = hidden;
  to_main = false;
  to_login = false;
}

-- `elementsEqual`.
unfoldable pub elements_equal : Text → Text → Bool
elements_equal [] [] = true
elements_equal [] (d ∷ other) = false
elements_equal (c ∷ text) [] = false
elements_equal (c ∷ text) (d ∷ other) = c == d && elements_equal text other

-- `registerTapped`: the checks, in their order, each with its error. `isPasswordValid` looks at the
-- first password both times.
unfoldable pub register_tapped : (Text → Bool) → RegisterForm → Register → Register
register_tapped is_email f r =
    if is_email f.email
    then (if ltb (length f.password) 6
        then record r { shown = failure }
        else if elements_equal f.password f.confirm_password
        then record r { shown = progress; creating = r.creating + 1 }
        else record r { shown = failure })
    else record r { shown = failure }

-- The completion of `register`: an error or no user, or a user, for whom `login` is called.
unfoldable pub create_answered : Bool → Register → Register
create_answered status r =
    if status
    then record r { creating = r.creating - 1; signing = r.signing + 1 }
    else record r { creating = r.creating - 1; shown = failure }

-- The completion of `login`.
unfoldable pub login_answered : Bool → Register → Register
login_answered status r = record r {
  signing = r.signing - 1;
  jobs = r.jobs ++ (if status then welcome else try_again) ∷ [];
}

unfoldable pub cancel_tapped : Register → Register
cancel_tapped r = record r { jobs = r.jobs ++ instantiate false ∷ [] }

unfoldable pub do_job : Job → Register → Register
do_job welcome r = record r { shown = success; jobs = r.jobs ++ instantiate true ∷ [] }
do_job try_again r = record r { shown = failure; jobs = r.jobs ++ instantiate false ∷ [] }
do_job (instantiate true) r = record r { to_main = true }
do_job (instantiate false) r = record r { to_login = true }

-- What can happen next.
pub data Move (is_email : Text → Bool) : Register → Register → Type 0 where
  tap : {r : Register} (f : RegisterForm) → Move is_email r (register_tapped is_email f r)
  cancel : {r : Register} → Move is_email r (cancel_tapped r)
  answer_create :
      {r : Register} (status : Bool) → 0 < r.creating → Move is_email r (create_answered status r)
  answer_login :
      {r : Register} (status : Bool) → 0 < r.signing → Move is_email r (login_answered status r)
  work :
      {r : Register} (job : Job) (rest : List Job)
      → r.jobs ≡ job ∷ rest
      → Move is_email r (do_job job (record r { jobs = rest }))

pub data Moves (is_email : Text → Bool) (r : Register) : Register → Type 0 where
  here : Moves is_email r r
  later : {s t : Register} → Moves is_email r s → Move is_email s t → Moves is_email r t
