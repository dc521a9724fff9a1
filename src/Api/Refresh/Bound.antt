-- ===== src/Api/Refresh/Bound.antt =====
-- Requests of `refreshOnce`, whatever the order of calls and answers.
use linktheca.Prelude.{
  ℕ, String, ◌+◌, ◌≤◌, ◌≡◌, refl, ◌∙◌, ap, Option, none, some, List, [], ◌∷◌, arith, length, truthy,
  Bool-cases, inl, inr,
}
use linktheca.Web.Http.{Host, Reply, Thrown}
use linktheca.Web.App.{World, Result, ok, err, app}
use linktheca.Auth.Storage.{read_refresh_token}
use linktheca.Api.Client.{expire, install, is_unauthorized}
use linktheca.Api.Client.Refreshing.{Accepted, received-Accepted}
use linktheca.Api.Refresh.{
  Shared, no_token, finish, finish_all, begin, call, answered, answer, Event, calls, answers, step,
  steps,
}

-- 1 while a refresh is on its way.
abbrev pub pending : Shared → ℕ
pending s = elim s.refresh_promise [ none ↦ 0 | some ws ↦ 1 ]

abbrev pub asked : Shared → ℕ
asked s = length s.world.sent

abbrev is_answer : (h : Host) → Event h → ℕ
is_answer h (calls i) = 0
is_answer h (answers r) = 1

abbrev pub answers_of : (h : Host) → List (Event h) → ℕ
answers_of h [] = 0
answers_of h (e ∷ es) = is_answer h e + answers_of h es

expire-sent : (e : Thrown) (w : World) → (expire e w).1.sent ≡ w.sent
unfolding app expire
expire-sent e w = elim (Bool-cases (is_unauthorized e)) [ inl q ↦ rw q refl | inr q ↦ rw q refl ]

finish_all-sent :
    (is : List ℕ) (r : Result String) (s : Shared)
    → (asked (finish_all is r s) ≡ asked s)
      × ((finish_all is r s).refresh_promise ≡ s.refresh_promise)
unfolding finish_all finish
finish_all-sent [] r s = (refl, refl)
finish_all-sent (i ∷ is) (ok t) s = finish_all-sent is (ok t) (finish i (ok t) s)
finish_all-sent (i ∷ is) (err e) s =
    let (same, kept) = finish_all-sent is (err e) (finish i (err e) s) in
    (same ∙ ap length (expire-sent e s.world), kept)

Accepted-sent :
    (h : Host) (w : World) (r : Result String × World) → Accepted h r w → r.1.sent ≡ w.sent
unfolding install app
Accepted-sent h w r (inl (p, body, v, q)) = ap (λ (t : Result String × World). t.1.sent) q
Accepted-sent h w r (inr (e, q)) = ap (λ (t : Result String × World). t.1.sent) q

answered-sent : (h : Host) (reply : Reply) (w : World) → (answered h reply w).1.sent ≡ w.sent
unfolding answered
answered-sent h reply w = Accepted-sent h w _ (received-Accepted h w reply)

abbrev at : World → Option (List ℕ) → List (ℕ × Result (Unit {0})) → Shared
at w o os = record { world = w; refresh_promise = o; outcomes = os }

begin_balance :
    (i : ℕ) (token : Option String) (w : World) (os : List (ℕ × Result (Unit {0})))
    → asked (begin i token (at w none os))
      ≤ asked (at w none os) + pending (begin i token (at w none os))
unfolding begin finish
begin_balance i none w os = omega (arith, ap length (expire-sent no_token w))
begin_balance i (some token) w os = omega arith

call_balance :
    (i : ℕ) (o : Option (List ℕ)) (w : World) (os : List (ℕ × Result (Unit {0})))
    → asked (call i (at w o os)) + pending (at w o os)
      ≤ asked (at w o os) + pending (call i (at w o os))
unfolding call
call_balance i none w os =
    omega (arith, begin_balance i (truthy (read_refresh_token w.storage)) w os)
call_balance i (some ws) w os = omega arith

answer_balance :
    (h : Host) (r : Reply) (o : Option (List ℕ)) (w : World) (os : List (ℕ × Result (Unit {0})))
    → asked (answer h r (at w o os)) + pending (at w o os)
      ≤ asked (at w o os) + pending (answer h r (at w o os)) + 1
unfolding answer
answer_balance h r none w os = omega arith
answer_balance h r (some ws) w os =
    let (result, v) = answered h r w in
    omega (arith, finish_all-sent ws result (at v none os), ap length (answered-sent h r w))

step_balance :
    (h : Host) (e : Event h) (s : Shared)
    → asked (step h e s) + pending s ≤ asked s + pending (step h e s) + is_answer h e
unfolding step
step_balance h (calls i) s = omega (arith, call_balance i s.refresh_promise s.world s.outcomes)
step_balance h (answers r) s = answer_balance h r s.refresh_promise s.world s.outcomes

-- In any order of callers and answers, the refresh requests sent, plus one if a refresh was on its
-- way at the start, are at most those sent before, plus the answers, plus one if a refresh is on
-- its way at the end.
pub steps_balance :
    (h : Host) (es : List (Event h)) (s : Shared)
    → asked (steps h es s) + pending s ≤ asked s + pending (steps h es s) + answers_of h es
unfolding steps
steps_balance h [] s = omega arith
steps_balance h (e ∷ es) s = omega (arith, steps_balance h es (step h e s), step_balance h e s)
