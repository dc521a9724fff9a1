-- ===== src/Api/Refresh/Sharing.antt =====
-- Callers of `refreshSession` that join one refresh, compared with one call of it
-- (web/src/shared/api/client.ts).
use linktheca.Prelude.{
  ℕ, String, ◌≡◌, refl, sym, ◌∙◌, ap, Bool-cases, inl, inr, none, some, List, [], ◌∷◌, ◌++◌, map,
  append_assoc, append_nil, if◌then◌else◌,
}
use linktheca.Web.Http.{Host, Thrown}
use linktheca.Web.App.{World, Result, ok, err, pure, app}
use linktheca.Web.App.Laws.{bind-ok, bind-err, catch-ok, catch-err}
use linktheca.Auth.Storage.{clear_refresh_token}
use linktheca.Auth.Store.{clear_session}
use linktheca.Api.Client.{
  refresh_request, perform_refresh, refresh_session, or_throw, expire, session_expired,
  is_unauthorized,
}
use linktheca.Api.Client.Refreshing.{stored}
use linktheca.Api.Refresh.{
  Shared, finish, finish_all, begin, call, answered, answer, calls, answers, Event, step, steps,
}

-- The outcomes of the callers, each of them the same.
abbrev pub all_went :
    List ℕ → Result (Unit {0}) → List (ℕ × Result (Unit {0})) → List (ℕ × Result (Unit {0}))
all_went [] r os = os
all_went (i ∷ is) r os = all_went is r ((i, r) ∷ os)

expired : Thrown → World → World
expired e w = record w {
  storage = if is_unauthorized e then clear_refresh_token w.storage else w.storage;
  auth = clear_session w.auth;
}

expire_lem : (e : Thrown) (w : World) → expire e w ≡ (err session_expired, expired e w)
unfolding app expire expired
expire_lem e w = elim (Bool-cases (is_unauthorized e)) [ inl q ↦ rw q refl | inr q ↦ rw q refl ]

expired_twice : (e : Thrown) (w : World) → expired e (expired e w) ≡ expired e w
unfolding expired clear_session clear_refresh_token
expired_twice e w = elim (Bool-cases (is_unauthorized e)) [
  | inl q ↦ elim (Bool-cases w.storage.disabled) [ inl d ↦ rw (q, d) refl | inr d ↦ rw (q, d) refl ]
  | inr q ↦ rw q refl
]

finish_all-ok :
    (is : List ℕ) (token : String) (s : Shared)
    → finish_all is (ok token) s ≡ record s { outcomes = all_went is (ok tt) s.outcomes }
unfolding finish_all finish
finish_all-ok [] token s = refl
finish_all-ok (i ∷ is) token s = finish_all-ok is token (finish i (ok token) s)

finish_all-err :
    (i : ℕ) (is : List ℕ) (e : Thrown) (s : Shared)
    → finish_all (i ∷ is) (err e) s ≡ record s {
      world = expired e s.world;
      outcomes = all_went (i ∷ is) (err session_expired) s.outcomes;
    }
unfolding finish_all finish
finish_all-err i [] e s = rw (expire_lem e s.world) refl
finish_all-err i (j ∷ is) e s =
    finish_all-err j is e (finish i (err e) s)
    ∙ rw (expire_lem e s.world, expired_twice e s.world) refl

abbrev with_waiting : World → List ℕ → List (ℕ × Result (Unit {0})) → Shared
with_waiting w l os = record { world = w; refresh_promise = some l; outcomes = os }

waiting :
    (h : Host) (is ws : List ℕ) (w : World) (os : List (ℕ × Result (Unit {0})))
    → steps h (map calls is) (record { world = w; refresh_promise = some ws; outcomes = os })
      ≡ record { world = w; refresh_promise = some (ws ++ is); outcomes = os }
unfolding steps
waiting h [] ws w os = ap (λ l. with_waiting w l os) (sym (append_nil ws))
waiting h (i ∷ is) ws w os =
    waiting h is (ws ++ i ∷ []) w os ∙ ap (λ l. with_waiting w l os) (append_assoc ws (i ∷ []) is)

module _ (h : Host) (w : World) (token : String) (e : stored w ≡ some token) where
  abbrev asked : World
  asked = record w { sent = refresh_request token ∷ w.sent }

  -- What `refreshSession` does with the end of a refresh.
  abbrev ended : Result String × World → Result (Unit {0}) × World
  ended (ok t, v) = (ok tt, v)
  ended (err x, v) = (err session_expired, expired x v)

  perform_refresh_lem :
      perform_refresh h w ≡ answered h (h.server w.sent (refresh_request token)) asked
  unfolding app perform_refresh or_throw answered
  perform_refresh_lem = rw e refl

  refresh_session_end :
      (r : Result String × World)
      → answered h (h.server w.sent (refresh_request token)) asked ≡ r
      → refresh_session h w ≡ ended r
  unfolding refresh_session pure
  refresh_session_end (ok t, v) q =
      catch-ok _ expire (bind-ok (perform_refresh h) (λ _. pure tt) (perform_refresh_lem ∙ q))
  refresh_session_end (err x, v) q =
      catch-err _ expire (bind-err (perform_refresh h) (λ _. pure tt) (perform_refresh_lem ∙ q))
      ∙ expire_lem x v

  refresh_session_lem :
      refresh_session h w ≡ ended (answered h (h.server w.sent (refresh_request token)) asked)
  refresh_session_lem = refresh_session_end _ refl

  finish_all-ended :
      (i : ℕ) (is : List ℕ) (os : List (ℕ × Result (Unit {0}))) (r : Result String × World)
      → finish_all (i ∷ is) r.0 (record { world = r.1; refresh_promise = none; outcomes = os })
        ≡ record {
          world = (ended r).1;
          refresh_promise = none;
          outcomes = all_went (i ∷ is) (ended r).0 os;
        }
  finish_all-ended i is os (ok t, v) =
      finish_all-ok (i ∷ is) t (record { world = v; refresh_promise = none; outcomes = os })
  finish_all-ended i is os (err x, v) =
      finish_all-err i is x (record { world = v; refresh_promise = none; outcomes = os })

  called :
      (i : ℕ) (os : List (ℕ × Result (Unit {0})))
      → call i (record { world = w; refresh_promise = none; outcomes = os })
        ≡ with_waiting asked (i ∷ []) os
  unfolding call begin
  called i os = ap (λ t. begin i t (record { world = w; refresh_promise = none; outcomes = os })) e

steps-append :
    (h : Host) (es fs : List (Event h)) (s : Shared)
    → steps h (es ++ fs) s ≡ steps h fs (steps h es s)
unfolding steps
steps-append h [] fs s = refl
steps-append h (e ∷ es) fs s = steps-append h es fs (step h e s)

-- However many callers enter while a refresh with a stored token is on its way, once the server
-- answers the world is the one that a single refreshSession leaves, the promise is cleared, and
-- every caller goes on the way that single call does.
pub refresh_shared :
    (h : Host) (w : World) (token : String) (i : ℕ) (is : List ℕ)
    (os : List (ℕ × Result (Unit {0})))
    → stored w ≡ some token
    → steps h
        (map calls (i ∷ is) ++ answers (h.server w.sent (refresh_request token)) ∷ [])
        (record { world = w; refresh_promise = none; outcomes = os })
      ≡ record {
        world = (refresh_session h w).1;
        refresh_promise = none;
        outcomes = all_went (i ∷ is) (refresh_session h w).0 os;
      }
unfolding steps
refresh_shared h w token i is os e =
    let reply = h.server w.sent (refresh_request token) in
    let start : Shared = record { world = w; refresh_promise = none; outcomes = os } in
    steps-append h (map calls (i ∷ is)) (answers reply ∷ []) start
    ∙ ap (λ t. answer h reply t)
        (ap (λ t. steps h (map calls is) t) (called h w token e i os)
          ∙ waiting h is (i ∷ []) (asked h w token e) os)
    ∙ finish_all-ended h w token e i is os (answered h reply (asked h w token e))
    ∙ ap
        (λ (r : Result (Unit {0}) × World). record {
          world = r.1;
          refresh_promise = none;
          outcomes = all_went (i ∷ is) r.0 os;
        })
        (sym (refresh_session_lem h w token e))
