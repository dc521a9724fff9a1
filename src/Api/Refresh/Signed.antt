-- ===== src/Api/Refresh/Signed.antt =====
-- The session store of web/src/features/auth/store.ts under shared refreshes.
use linktheca.Prelude.{ℕ, String, Option, none, some, List, [], ◌∷◌, inl, inr, Bool-cases, truthy}
use linktheca.Web.Http.{Host, Reply, Thrown}
use linktheca.Web.App.{World, Result, ok, err, app}
use linktheca.Auth.Storage.{read_refresh_token}
use linktheca.Auth.Consistency.{IsConsistent, set_session-IsConsistent, clear_session-IsConsistent}
use linktheca.Api.Client.{expire, install, is_unauthorized}
use linktheca.Api.Client.Refreshing.{Accepted, received-Accepted}
use linktheca.Api.Refresh.{
  Shared, finish, finish_all, begin, call, answered, answer, Event, calls, answers, steps,
}

expire-IsConsistent : (e : Thrown) (w : World) → IsConsistent (expire e w).1.auth
unfolding app expire
expire-IsConsistent e w = elim (Bool-cases (is_unauthorized e)) [
  | inl q ↦ rw q (clear_session-IsConsistent w.auth)
  | inr q ↦ rw q (clear_session-IsConsistent w.auth)
]

finish_all-IsConsistent :
    (is : List ℕ) (r : Result String) (s : Shared)
    → IsConsistent s.world.auth
    → IsConsistent (finish_all is r s).world.auth
unfolding finish_all finish
finish_all-IsConsistent [] r s c = c
finish_all-IsConsistent (i ∷ is) (ok t) s c =
    finish_all-IsConsistent is (ok t) (finish i (ok t) s) c
finish_all-IsConsistent (i ∷ is) (err e) s c =
    finish_all-IsConsistent is (err e) (finish i (err e) s) (expire-IsConsistent e s.world)

accepted-IsConsistent :
    (h : Host) (w : World) (r : Result String × World)
    → Accepted h r w
    → IsConsistent w.auth
    → IsConsistent r.1.auth
unfolding install app
accepted-IsConsistent h w r (inl (p, body, v, q)) c = rw q (set_session-IsConsistent _ _ w.auth)
accepted-IsConsistent h w r (inr (e, q)) c = rw q c

answered-Accepted : (h : Host) (w : World) (r : Reply) → Accepted h (answered h r w) w
unfolding answered
answered-Accepted h w r = received-Accepted h w r

begin-IsConsistent :
    (i : ℕ) (token : Option String) (s : Shared)
    → IsConsistent s.world.auth
    → IsConsistent (begin i token s).world.auth
unfolding begin finish
begin-IsConsistent i none s c = expire-IsConsistent _ s.world
begin-IsConsistent i (some token) s c = c

abbrev pub at : World → Option (List ℕ) → List (ℕ × Result (Unit {0})) → Shared
at w o os = record { world = w; refresh_promise = o; outcomes = os }

pub call-IsConsistent :
    (i : ℕ) (o : Option (List ℕ)) (w : World) (os : List (ℕ × Result (Unit {0})))
    → IsConsistent w.auth
    → IsConsistent (call i (at w o os)).world.auth
unfolding call
call-IsConsistent i none w os c =
    begin-IsConsistent i (truthy (read_refresh_token w.storage)) (at w none os) c
call-IsConsistent i (some ws) w os c = c

pub answer-IsConsistent :
    (h : Host) (r : Reply) (o : Option (List ℕ)) (w : World) (os : List (ℕ × Result (Unit {0})))
    → IsConsistent w.auth
    → IsConsistent (answer h r (at w o os)).world.auth
unfolding answer
answer-IsConsistent h r none w os c = c
answer-IsConsistent h r (some ws) w os c =
    let (result, v) = answered h r w in
    finish_all-IsConsistent ws result (at v none os)
      (accepted-IsConsistent h w (answered h r w) (answered-Accepted h w r) c)

-- In any order of callers and answers of shared refreshes, a consistent session store stays
-- consistent.
steps-IsConsistent :
    (h : Host) (es : List (Event h)) (s : Shared)
    → IsConsistent s.world.auth
    → IsConsistent (steps h es s).world.auth
unfolding steps
steps-IsConsistent h [] s c = c
steps-IsConsistent h (calls i ∷ es) s c =
    steps-IsConsistent h es (call i s) (call-IsConsistent i s.refresh_promise s.world s.outcomes c)
steps-IsConsistent h (answers r ∷ es) s c =
    steps-IsConsistent h es (answer h r s)
      (answer-IsConsistent h r s.refresh_promise s.world s.outcomes c)
