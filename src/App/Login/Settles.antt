-- ===== src/App/Login/Settles.antt =====
-- A sign-in comes to an end: the main screen is presented, or the button is enabled again.
use thermo_check.Common.{
  ℕ, zero, suc, ◌+◌, ◌<◌, ◌≡◌, refl, ap, ◌∙◌, Bool, true, false, ◌||◌, ◌⊎◌, inl, inr, List, [], ◌∷◌,
  ◌++◌, arith, if◌then◌else◌,
}
use thermo_check.App.EntryPoint.{Text}
use thermo_check.App.Login.{
  Task, signed_in, refused, facebook_signed_in, facebook_refused, instantiate_main, present_main,
  Login, view_did_load, sign_in_answered, perform, Reach,
}
use thermo_check.App.Login.Once.{IsOnce, Reach-IsOnce}

-- How many blocks run until those of the queue are done, with those that they add.
blocks : List Task → ℕ
blocks [] = 0
blocks (signed_in ∷ ts) = 3 + blocks ts
blocks (facebook_signed_in ∷ ts) = 3 + blocks ts
blocks (instantiate_main ∷ ts) = 2 + blocks ts
blocks (t ∷ ts) = 1 + blocks ts

leads_to_main : Task → Bool
leads_to_main signed_in = true
leads_to_main facebook_signed_in = true
leads_to_main instantiate_main = true
leads_to_main present_main = true
leads_to_main _ = false

enables : Task → Bool
enables refused = true
enables _ = false

any : (Task → Bool) → List Task → Bool
any p [] = false
any p (t ∷ ts) = p t || any p ts

any-append :
    (p : Task → Bool) (ts : List Task) (t : Task) → any p (ts ++ t ∷ []) ≡ (any p ts || p t)
unfolding any
any-append p [] t = ground arith
any-append p (s ∷ ts) t = ground (arith, any-append p ts t)

blocks-append : (ts : List Task) (t : Task) → blocks (ts ++ t ∷ []) ≡ blocks ts + blocks (t ∷ [])
unfolding blocks
blocks-append [] t = omega arith
blocks-append (s ∷ ts) t = ground (arith, blocks-append ts t)

-- What the queue will have done.
will_present : Login → Bool
will_present l = l.presented || any leads_to_main l.tasks

will_enable : Login → Bool
will_enable l = l.enabled || any enables l.tasks

module _ (rest : List Task) (l : Login) where
  done_by : Task → Login
  done_by task = perform task (record l { tasks = rest })

  blocks-perform :
      (task : Task) → l.tasks ≡ task ∷ rest → blocks (done_by task).tasks + 1 ≡ blocks l.tasks
  unfolding done_by perform blocks
  blocks-perform signed_in e = ground (arith, ap blocks e, blocks-append rest instantiate_main)
  blocks-perform refused e = ground (arith, ap blocks e)
  blocks-perform facebook_signed_in e =
      ground (arith, ap blocks e, blocks-append rest instantiate_main)
  blocks-perform facebook_refused e = ground (arith, ap blocks e)
  blocks-perform instantiate_main e = ground (arith, ap blocks e, blocks-append rest present_main)
  blocks-perform present_main e = ground (arith, ap blocks e)

  will_present-perform :
      (task : Task) → l.tasks ≡ task ∷ rest → will_present (done_by task) ≡ will_present l
  unfolding done_by perform will_present any leads_to_main
  will_present-perform signed_in e =
      ground (arith, ap (any leads_to_main) e, any-append leads_to_main rest instantiate_main)
  will_present-perform refused e = ground (arith, ap (any leads_to_main) e)
  will_present-perform facebook_signed_in e =
      ground (arith, ap (any leads_to_main) e, any-append leads_to_main rest instantiate_main)
  will_present-perform facebook_refused e = ground (arith, ap (any leads_to_main) e)
  will_present-perform instantiate_main e =
      ground (arith, ap (any leads_to_main) e, any-append leads_to_main rest present_main)
  will_present-perform present_main e = ground (arith, ap (any leads_to_main) e)

  will_enable-perform :
      (task : Task) → l.tasks ≡ task ∷ rest → will_enable (done_by task) ≡ will_enable l
  unfolding done_by perform will_enable any enables
  will_enable-perform signed_in e =
      ground (arith, ap (any enables) e, any-append enables rest instantiate_main)
  will_enable-perform refused e = ground (arith, ap (any enables) e)
  will_enable-perform facebook_signed_in e =
      ground (arith, ap (any enables) e, any-append enables rest instantiate_main)
  will_enable-perform facebook_refused e = ground (arith, ap (any enables) e)
  will_enable-perform instantiate_main e =
      ground (arith, ap (any enables) e, any-append enables rest present_main)
  will_enable-perform present_main e = ground (arith, ap (any enables) e)

  signing-perform : (task : Task) → (done_by task).signing ≡ l.signing
  unfolding done_by perform
  signing-perform signed_in = refl
  signing-perform refused = refl
  signing-perform facebook_signed_in = refl
  signing-perform facebook_refused = refl
  signing-perform instantiate_main = refl
  signing-perform present_main = refl

-- The queue is empty, and has done what it had to.
pub record IsSettled (present enable : Bool) (l : Login) : Type 0 where
  pub nothing_left : l.tasks ≡ []
  pub main : l.presented ≡ present
  pub button : l.enabled ≡ enable

List-cases : (ts : List Task) → (ts ≡ []) ⊎ ((t : Task) × (rest : List Task) × (ts ≡ t ∷ rest))
List-cases [] = inl refl
List-cases (t ∷ ts) = inr (t, ts, refl)

settled : (l : Login) → l.tasks ≡ [] → IsSettled (will_present l) (will_enable l) l
unfolding will_present will_enable any
settled l e = record {
  nothing_left = e;
  main = ground (arith, ap (any leads_to_main) e);
  button = ground (arith, ap (any enables) e);
}

last_answer : (l : Login) (status : Bool) → IsOnce l → (sign_in_answered status l).signing ≡ 0
unfolding sign_in_answered
last_answer l status once = omega (arith, once.one)

outcome :
    (l : Login) (status : Bool) (l' : Login)
    → IsSettled
        (will_present (sign_in_answered status l))
        (will_enable (sign_in_answered status l))
        l'
    → (if status then l'.presented else l'.enabled) ≡ true
unfolding sign_in_answered will_present will_enable leads_to_main enables
outcome l true l' done = ground (arith, done.main, any-append leads_to_main l.tasks signed_in)
outcome l false l' done = ground (arith, done.button, any-append enables l.tasks refused)

-- The blocks of the main queue run, in its order, and nothing else happens.
pub data Works (l : Login) : Login → Type 0 where
  idle : Works l l
  worked :
      {m : Login} (task : Task) (rest : List Task)
      → Works l m
      → m.tasks ≡ task ∷ rest
      → Works l (perform task (record m { tasks = rest }))

-- The blocks on the queue run, and the queue gets empty.
Drains : Login → Login → Type 0
Drains s l =
    (l' : Login) × Works s l'
    × IsSettled (will_present l) (will_enable l) l'
    × (l'.signing ≡ l.signing)

drains : (k : ℕ) (s l : Login) → blocks l.tasks ≡ k → Works s l → Drains s l
unfolding Drains done_by
drains zero s l e r = elim (List-cases l.tasks) [
  | inl empty ↦ (l, r, settled l empty, refl)
  | inr (t, rest, more) ↦ absurd (omega (arith, blocks-perform rest l t more))
]
drains (suc k) s l e r = elim (List-cases l.tasks) [
  | inl empty ↦ (l, r, settled l empty, refl)
  | inr (t, rest, more) ↦
      let (l', r', done, same) =
        drains k s (done_by rest l t) (omega (arith, blocks-perform rest l t more))
          (worked t rest r more) in
      (
        l',
        r',
        rw (← will_present-perform rest l t more, ← will_enable-perform rest l t more) done,
        same ∙ signing-perform rest l t,
      )
]

-- From every state that the login screen can reach in which a sign-in with an e-mail address is not
-- answered, whichever way Firebase answers it, the blocks of the main queue, run in its order with
-- nothing else happening, lead to a state with no block left and no sign-in unanswered in which the
-- main screen is presented if the answer has no error, and the button is enabled again if it has
-- one.
pub answer-IsSettled :
    (is_email : Text → Bool) (l : Login) (status : Bool)
    → Reach is_email view_did_load l
    → 0 < l.signing
    → (l' : Login) × Works (sign_in_answered status l) l'
      × (l'.tasks ≡ [])
      × (l'.signing ≡ 0)
      × ((if status then l'.presented else l'.enabled) ≡ true)
unfolding Drains
answer-IsSettled is_email l status r h =
    let (l', r', done, same) =
      drains _ (sign_in_answered status l) (sign_in_answered status l) refl idle in
    (
      l',
      r',
      done.nothing_left,
      same ∙ last_answer l status (Reach-IsOnce r),
      outcome l status l' done,
    )
