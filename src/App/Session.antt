-- ===== src/App/Session.antt =====
-- utils/Authentication.swift with utils/Router.swift: whether a user is signed in, and which screen follows.
pub mod SignedOut
use thermo_check.Common.{
  ◌≡◌, Bool, true, false, not, Option, none, some, List, [], ◌∷◌, ◌++◌, if◌then◌else◌,
}

pub data Screen : Type 0 where
  main login : Screen

-- Whether Firebase has a current user, the token of Facebook with whether it has expired, the screens
-- that blocks of the router on the main queue are to present, and those presented, the last one first.
pub record Session : Type 0 where
  pub current_user : Bool
  pub token : Option Bool
  pub queue : List Screen
  pub presented : List Screen

-- `toMain` and `toLogin` of the router.
unfoldable pub to_main : Session → Session
to_main s = record s { queue = s.queue ++ main ∷ [] }

unfoldable pub to_login : Session → Session
to_login s = record s { queue = s.queue ++ login ∷ [] }

-- `routerToMain`, for a controller that is the one of the chart or another.
unfoldable pub router_to_main : Bool → Session → Session
router_to_main true s = s
router_to_main false s = to_main s

-- `signOut`, where Firebase throws or has no user behind it; `logOut` takes the token of Facebook away.
unfoldable pub sign_out : Bool → Session → Session
sign_out true s = s
sign_out false s = to_login (record s { current_user = false; token = none })

unfoldable pub is_usable : Option Bool → Bool
is_usable none = false
is_usable (some is_expired) = not is_expired

-- `fetchCurrentUser`, for a controller, and a Firebase that throws if it is to sign out, or does not.
unfoldable pub fetch_current_user : Bool → Bool → Session → Session
fetch_current_user is_chart throws s =
    if is_usable s.token
    then router_to_main is_chart s
    else if s.current_user
    then router_to_main is_chart s
    else to_login (sign_out throws s)

-- A block of the router on the main queue, which is the first of these.
unfoldable pub show_next : List Screen → Session → Session
show_next [] s = s
show_next (screen ∷ rest) s = record s { queue = rest; presented = screen ∷ s.presented }

unfoldable pub present : Session → Session
present s = show_next s.queue s

-- What happens without a sign-in: the screens of splash and chart ask for the user, the button of the
-- chart signs out, the main queue does a block, and a token expires.
pub data Event : Type 0 where
  fetch : Bool → Bool → Event
  leave : Bool → Event
  work expire : Event

unfoldable pub expired : Option Bool → Option Bool
expired none = none
expired (some is_expired) = some true

unfoldable pub happen : Event → Session → Session
happen (fetch is_chart throws) s = fetch_current_user is_chart throws s
happen (leave throws) s = sign_out throws s
happen work s = present s
happen expire s = record s { token = expired s.token }

unfoldable pub run : List Event → Session → Session
run [] s = s
run (e ∷ events) s = run events (happen e s)
