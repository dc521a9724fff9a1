-- ===== src/Api/Calls/Signed.antt =====
-- The session store of web/src/features/auth/store.ts under calls that are on their way together.
use linktheca.Prelude.{ℕ, Option, none, some, List, [], ◌∷◌, if_elim, ◌≡◌, refl, ◌∙◌}
use linktheca.Web.Http.{Host, Reply, failed, response}
use linktheca.Web.App.{Result, ok, err}
use linktheca.Auth.Store.{AuthState}
use linktheca.Auth.Consistency.{IsConsistent}
use linktheca.Api.Refresh.{call, answer}
use linktheca.Api.Refresh.Signed.{call-IsConsistent, answer-IsConsistent}
use linktheca.Api.Calls.{
  Stage, first, refreshing, second, ended, Call, Calls, find, set_stage, fetch_call, resume_call,
  resume, resume_all, join, end_call, answer_call, Event, fetches, answers, refreshes, step, run,
  is_refused,
}

abbrev pub auth : Calls → AuthState
auth s = s.shared.world.auth

resume_call-auth :
    (o : Option Call) (i : ℕ) (r : Result (Unit {0})) (s : Calls)
    → auth (resume_call o i r s) ≡ auth s
unfolding resume_call
resume_call-auth none i r s = refl
resume_call-auth (some c) i (ok u) s = refl
resume_call-auth (some c) i (err x) s = refl

resume-auth : (os : List (ℕ × Result (Unit {0}))) (s : Calls) → auth (resume os s) ≡ auth s
unfolding resume
resume-auth [] s = refl
resume-auth ((i, r) ∷ os) s =
    let t = resume os s in resume_call-auth (find i t.calls) i r t ∙ resume-auth os s

resume_all-IsConsistent : (s : Calls) → IsConsistent (auth s) → IsConsistent (auth (resume_all s))
unfolding resume_all
resume_all-IsConsistent s c = rw (resume-auth s.shared.outcomes _) c

join-IsConsistent : (i : ℕ) (s : Calls) → IsConsistent (auth s) → IsConsistent (auth (join i s))
unfolding join
join-IsConsistent i s c =
    resume_all-IsConsistent
      (record { shared = call i s.shared; calls = set_stage i refreshing s.calls })
      (call-IsConsistent i s.shared.refresh_promise s.shared.world s.shared.outcomes c)

module _ (h : Host) where
  end_call-auth : (c : Call) (r : Reply) (s : Calls) → auth (end_call h c r s) ≡ auth s
  end_call-auth c failed s = refl
  end_call-auth c (response res) s = refl

  by_stage :
      (st : Stage) (x y s : Calls)
      → IsConsistent (auth x)
      → IsConsistent (auth y)
      → IsConsistent (auth s)
      → IsConsistent (auth (elim st [ first ↦ x | refreshing ↦ s | second ↦ y | ended r ↦ s ]))
  by_stage first x y s cx cy c = cx
  by_stage refreshing x y s cx cy c = c
  by_stage second x y s cx cy c = cy
  by_stage (ended r) x y s cx cy c = c

  answer_call-IsConsistent :
      (o : Option Call) (r : Reply) (s : Calls)
      → IsConsistent (auth s)
      → IsConsistent (auth (answer_call h o r s))
  unfolding answer_call
  answer_call-IsConsistent none r s c = c
  answer_call-IsConsistent (some k) r s c =
      let over : IsConsistent (auth (end_call h k r s)) = rw (end_call-auth k r s) c in
      by_stage k.stage _ _ s
        (if_elim (λ (t : Calls). IsConsistent (auth t)) (is_refused h k r s)
          (λ e. join-IsConsistent k.number s c) (λ e. over))
        over c

  step-IsConsistent :
      (e : Event h) (s : Calls) → IsConsistent (auth s) → IsConsistent (auth (step h e s))
  unfolding step fetch_call
  step-IsConsistent (fetches path init) s c = c
  step-IsConsistent (answers i r) s c = answer_call-IsConsistent (find i s.calls) r s c
  step-IsConsistent (refreshes r) s c =
      resume_all-IsConsistent (record s { shared = answer h r s.shared })
        (answer-IsConsistent h r s.shared.refresh_promise s.shared.world s.shared.outcomes c)

  -- In any order of calls and answers, with calls on their way together, a consistent session store
  -- stays consistent.
  pub calls-IsConsistent :
      (es : List (Event h)) (s : Calls) → IsConsistent (auth s) → IsConsistent (auth (run h es s))
  unfolding run
  calls-IsConsistent [] s c = c
  calls-IsConsistent (e ∷ es) s c = calls-IsConsistent es (step h e s) (step-IsConsistent e s c)
