-- ===== src/App/Login.antt =====
-- LoginViewController.swift with utils/Authentication.swift, utils/Router.swift and the checks of
-- utils/PKHUD.swift: signing in with an e-mail address or with Facebook.
--
-- Firebase and Facebook answer when they like; what is dispatched to the main queue runs later, in
-- its order. The user cannot tap a button that is not enabled.
pub mod Once
pub mod Settles
use thermo_check.Common.{
  ℕ, zero, suc, ◌+◌, ◌-◌, ◌<◌, ◌≡◌, ltb, Bool, true, false, Option, none, some, List, [], ◌∷◌, ◌++◌,
  length, if◌then◌else◌,
}
use thermo_check.App.EntryPoint.{Text}
use thermo_check.App.AddPoint.{Hud, hidden, progress, success, failure}

-- The blocks of the controller on the main queue: those of the completions, that of `Router.toMain`,
-- and that of `presentInFullScreen`.
pub data Task : Type 0 where
  signed_in refused facebook_signed_in facebook_refused : Task
  instantiate_main present_main : Task

-- `signing` and `facebook` count the calls of `signIn` that Firebase has not answered; `presented`
-- tells whether the main screen is up.
pub record Login : Type 0 where
  pub enabled : Bool
  pub signing : ℕ
  pub facebook : ℕ
  pub tasks : List Task
  pub shown : Hud
  pub presented : Bool

-- What the text fields hold.
pub record Form : Type 0 where
  pub email : Text
  pub password : Text

abbrev pub view_did_load : Login
view_did_load = record {
  enabled = true;
  signing = 0;
  facebook = 0;
  tasks = [];
  shown = hidden;
  presented = false;
}

-- `isEmailValid` and `isPasswordValid` show an error where they fail. `is_email` is the predicate
-- of the regular expression.
module _ (is_email : Text → Bool) where
  unfoldable pub login_tapped : Form → Login → Login
  login_tapped form l =
      if is_email form.email
      then (if ltb (length form.password) 6
          then record l { shown = failure }
          else record l { enabled = false; shown = progress; signing = l.signing + 1 })
      else record l { shown = failure }

-- The completion of `login`, with whether there was no error.
unfoldable pub sign_in_answered : Bool → Login → Login
sign_in_answered status l = record l {
  signing = l.signing - 1;
  tasks = l.tasks ++ (if status then signed_in else refused) ∷ [];
}

-- `loginButton(_:didCompleteWith:error:)` for `result?.isCancelled`, with whether there is an access
-- token; without one, `AccessToken.current!` stops the program.
unfoldable pub did_complete : Option Bool → Bool → Login → Option Login
did_complete (some true) token l = some l
did_complete _ token l =
    if token then some (record l { shown = progress; facebook = l.facebook + 1 }) else none

-- The answer to `loginWithFacebook`: an error, no error and a result, or neither.
pub data Answer : Type 0 where
  error result neither : Answer

unfoldable pub facebook_answered : Answer → Login → Login
facebook_answered error l = record l {
  facebook = l.facebook - 1;
  tasks = l.tasks ++ facebook_refused ∷ [];
}
facebook_answered result l = record l {
  facebook = l.facebook - 1;
  tasks = l.tasks ++ facebook_signed_in ∷ [];
}
facebook_answered neither l = record l { facebook = l.facebook - 1 }

-- A block runs, which is no longer on the queue.
unfoldable pub perform : Task → Login → Login
perform signed_in l = record l { shown = success; tasks = l.tasks ++ instantiate_main ∷ [] }
perform refused l = record l { enabled = true; shown = failure }
perform facebook_signed_in l = record l {
  shown = success;
  tasks = l.tasks ++ instantiate_main ∷ [];
}
perform facebook_refused l = record l { shown = failure }
perform instantiate_main l = record l { tasks = l.tasks ++ present_main ∷ [] }
perform present_main l = record l { presented = true }

-- What can happen next.
pub data Step (is_email : Text → Bool) : Login → Login → Type 0 where
  tap :
      {l : Login} (form : Form) → l.enabled ≡ true → Step is_email l (login_tapped is_email form l)
  answer : {l : Login} (status : Bool) → 0 < l.signing → Step is_email l (sign_in_answered status l)
  complete :
      {l l' : Login} (cancelled : Option Bool) (token : Bool)
      → did_complete cancelled token l ≡ some l'
      → Step is_email l l'
  answer_facebook :
      {l : Login} (given : Answer) → 0 < l.facebook → Step is_email l (facebook_answered given l)
  work :
      {l : Login} (task : Task) (rest : List Task)
      → l.tasks ≡ task ∷ rest
      → Step is_email l (perform task (record l { tasks = rest }))

pub data Reach (is_email : Text → Bool) (l : Login) : Login → Type 0 where
  here : Reach is_email l l
  later : {m n : Login} → Reach is_email l m → Step is_email m n → Reach is_email l n
