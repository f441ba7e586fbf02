-- ===== src/App/Session/SignedOut.antt =====
-- Without a sign-in the main screen is not presented.
use thermo_check.Common.{
  ℕ, ◌+◌, ◌≡◌, refl, ap, ◌∙◌, Bool, true, false, Option, none, some, List, [], ◌∷◌, ◌++◌, arith,
}
use thermo_check.App.Session.{
  Screen, main, login, Session, to_login, sign_out, is_usable, fetch_current_user, show_next,
  present, Event, fetch, leave, work, expire, expired, happen, run,
}

-- How many main screens are presented.
unfoldable pub mains : List Screen → ℕ
mains [] = 0
mains (main ∷ screens) = 1 + mains screens
mains (login ∷ screens) = mains screens

mains-append : (queue : List Screen) → mains (queue ++ login ∷ []) ≡ mains queue
unfolding mains
mains-append [] = refl
mains-append (main ∷ queue) = ap (λ n. 1 + n) (mains-append queue)
mains-append (login ∷ queue) = mains-append queue

-- Nobody is signed in, no main screen waits, and `n` are presented.
record IsOut (n : ℕ) (s : Session) : Type 0 where
  no_user : s.current_user ≡ false
  no_token : is_usable s.token ≡ false
  none_waits : mains s.queue ≡ 0
  shown : mains s.presented ≡ n

module _ {n : ℕ} {s : Session} (out : IsOut n s) where
  to_login-IsOut : IsOut n (to_login s)
  unfolding to_login
  to_login-IsOut = record {
    no_user = out.no_user;
    no_token = out.no_token;
    none_waits = mains-append s.queue ∙ out.none_waits;
    shown = out.shown;
  }

  cleared-IsOut : IsOut n (record s { current_user = false; token = none })
  unfolding is_usable
  cleared-IsOut = record {
    no_user = refl;
    no_token = refl;
    none_waits = out.none_waits;
    shown = out.shown;
  }

  present-IsOut : IsOut n (present s)
  unfolding present show_next mains
  present-IsOut = next s.queue out.none_waits
    where
      next : (queue : List Screen) → mains queue ≡ 0 → IsOut n (show_next queue s)
      next [] none_left = out
      next (main ∷ rest) none_left = absurd (omega arith)
      next (login ∷ rest) none_left = record {
        no_user = out.no_user;
        no_token = out.no_token;
        none_waits = none_left;
        shown = out.shown;
      }

  expire-IsOut : IsOut n (happen expire s)
  unfolding happen expired is_usable
  expire-IsOut = record {
    no_user = out.no_user;
    no_token = over s.token;
    none_waits = out.none_waits;
    shown = out.shown;
  }
    where
      over : (token : Option Bool) → is_usable (expired token) ≡ false
      over none = refl
      over (some is_expired) = refl

sign_out-IsOut : {n : ℕ} (throws : Bool) {s : Session} → IsOut n s → IsOut n (sign_out throws s)
unfolding sign_out
sign_out-IsOut true out = out
sign_out-IsOut false out = to_login-IsOut (cleared-IsOut out)

fetch-IsOut :
    {n : ℕ} (is_chart throws : Bool) {s : Session}
    → IsOut n s
    → IsOut n (fetch_current_user is_chart throws s)
unfolding fetch_current_user
fetch-IsOut is_chart throws {s = s} out =
    simp (out.no_token, out.no_user) (to_login-IsOut (sign_out-IsOut throws out))

happen-IsOut : {n : ℕ} (e : Event) {s : Session} → IsOut n s → IsOut n (happen e s)
unfolding happen
happen-IsOut (fetch is_chart throws) out = fetch-IsOut is_chart throws out
happen-IsOut (leave throws) out = sign_out-IsOut throws out
happen-IsOut work out = present-IsOut out
happen-IsOut expire out = expire-IsOut out

run-IsOut : {n : ℕ} (events : List Event) {s : Session} → IsOut n s → IsOut n (run events s)
unfolding run
run-IsOut [] out = out
run-IsOut (e ∷ events) out = run-IsOut events (happen-IsOut e out)

-- Behind a `signOut` that does not throw, with no main screen waiting on the main queue, for any
-- calls of `fetchCurrentUser` from any controller and of `signOut`, whether these throw or not,
-- blocks of the main queue and tokens that expire, in any order and without a sign-in, no more main
-- screens are presented than before.
pub run-sign_out :
    (events : List Event) (s : Session)
    → mains s.queue ≡ 0
    → mains (run events (sign_out false s)).presented ≡ mains s.presented
unfolding sign_out to_login is_usable
run-sign_out events s empty = (run-IsOut events gone).shown
  where
    gone : IsOut (mains s.presented) (sign_out false s)
    gone = record {
      no_user = refl;
      no_token = refl;
      none_waits = mains-append s.queue ∙ empty;
      shown = refl;
    }
