-- ===== src/Api/Calls/Waiting.antt =====
-- Why no call of `apiFetch` of web/src/shared/api/client.ts waits for a refresh that is not there.
use linktheca.Prelude.{
  ℕ, ◌≡◌, refl, ◌∙◌, String, Bool, true, ◌||◌, Option, none, some, List, [], ◌∷◌, ◌++◌, arith,
  nullish, truthy, if_elim, ◌==◌, nat_eq,
}
use linktheca.Web.Json.{Json}
use linktheca.Web.Http.{Host, Reply, failed, response, RequestInit}
use linktheca.Web.App.{World, Result, ok, err}
use linktheca.Auth.Storage.{read_refresh_token}
use linktheca.Api.Refresh.{Shared, finish, finish_all, begin, call, answered, answer}
use linktheca.Api.Calls.{
  Stage, first, refreshing, second, ended, Call, Calls, find, set_stage, fetch_call, resume_call,
  resume, resume_all, join, end_call, answer_call, Event, fetches, answers, refreshes, step, run,
  is_refused, idle,
}
use linktheca.Api.Calls.Among.{
  mem, ids, AllAmong, AllAmong-mono, set_stage-AllAmong, joined-AllAmong, resume-AllAmong,
}

-- Who waits for the refresh on its way, and who else is to go on.
abbrev pub queue : Shared → List ℕ
queue s = nullish s.refresh_promise []

abbrev due : Shared → ℕ → Bool
due s j = mem j (ids s.outcomes) || mem j (queue s)

abbrev IsLive : Calls → Type 0
IsLive s = (s.shared.outcomes ≡ []) × AllAmong (λ j. mem j (queue s.shared)) s.calls

abbrev KeepsShared : Calls → Calls → Type 0
KeepsShared s t =
    (t.shared.refresh_promise ≡ s.shared.refresh_promise) × (t.shared.outcomes ≡ s.shared.outcomes)

resume_call-KeepsShared :
    (o : Option Call) (i : ℕ) (r : Result (Unit {0})) (s : Calls)
    → KeepsShared s (resume_call o i r s)
unfolding resume_call
resume_call-KeepsShared none i r s = (refl, refl)
resume_call-KeepsShared (some c) i (ok u) s = (refl, refl)
resume_call-KeepsShared (some c) i (err x) s = (refl, refl)

resume-KeepsShared : (os : List (ℕ × Result (Unit {0}))) (s : Calls) → KeepsShared s (resume os s)
unfolding resume
resume-KeepsShared [] s = (refl, refl)
resume-KeepsShared ((i, r) ∷ os) s =
    let t = resume os s in
    let one = resume_call-KeepsShared (find i t.calls) i r t in
    let others = resume-KeepsShared os s in (one.0 ∙ others.0, one.1 ∙ others.1)

resume_all-IsLive : (s : Calls) → AllAmong (due s.shared) s.calls → IsLive (resume_all s)
unfolding resume_all
resume_all-IsLive s a =
    let drained : Calls = record s { shared = record s.shared { outcomes = [] } } in
    let kept = resume-KeepsShared s.shared.outcomes drained in
    (
      kept.1,
      AllAmong-mono (λ j. mem j (queue s.shared)) _ _ (λ j e. rw kept.0 e)
          (resume-AllAmong (λ j. mem j (queue s.shared)) s.shared.outcomes drained a),
    )

mem-append : (j : ℕ) (is js : List ℕ) → mem j (is ++ js) ≡ (mem j is || mem j js)
mem-append j [] js = refl
mem-append j (i ∷ is) js = ground (arith, mem-append j is js)

abbrev at : World → Option (List ℕ) → List (ℕ × Result (Unit {0})) → Shared
at w o os = record { world = w; refresh_promise = o; outcomes = os }

begin-due :
    (i : ℕ) (token : Option String) (w : World) (os : List (ℕ × Result (Unit {0}))) (j : ℕ)
    → (j == i) || due (at w none os) j ≡ true
    → due (begin i token (at w none os)) j ≡ true
unfolding begin finish
begin-due i none w os j e = ground arith
begin-due i (some t) w os j e = ground arith

call-due :
    (i : ℕ) (o : Option (List ℕ)) (w : World) (os : List (ℕ × Result (Unit {0}))) (j : ℕ)
    → (j == i) || due (at w o os) j ≡ true
    → due (call i (at w o os)) j ≡ true
unfolding call
call-due i none w os j e = begin-due i (truthy (read_refresh_token w.storage)) w os j e
call-due i (some ws) w os j e = ground (arith, mem-append j ws (i ∷ []))

finish_all-due :
    (is : List ℕ) (r : Result String) (s : Shared) (j : ℕ)
    → mem j is || due s j ≡ true
    → due (finish_all is r s) j ≡ true
unfolding finish_all finish
finish_all-due [] r s j e = e
finish_all-due (i ∷ is) (ok t) s j e = finish_all-due is (ok t) (finish i (ok t) s) j (ground arith)
finish_all-due (i ∷ is) (err x) s j e =
    finish_all-due is (err x) (finish i (err x) s) j (ground arith)

answer-due :
    (h : Host) (r : Reply) (o : Option (List ℕ)) (w : World) (os : List (ℕ × Result (Unit {0})))
    (j : ℕ)
    → due (at w o os) j ≡ true
    → due (answer h r (at w o os)) j ≡ true
unfolding answer
answer-due h r none w os j e = e
answer-due h r (some ws) w os j e =
    let (result, v) = answered h r w in finish_all-due ws result (at v none os) j (ground arith)

fetch_call-IsLive :
    (path : String) (init : RequestInit) (s : Calls) → IsLive s → IsLive (fetch_call path init s)
unfolding fetch_call
fetch_call-IsLive path init s l = (l.0, (refl, l.1))

join-IsLive : (i : ℕ) (s : Calls) → IsLive s → IsLive (join i s)
unfolding join
join-IsLive i s l = resume_all-IsLive _ (
    AllAmong-mono (λ j. (j == i) || mem j (queue s.shared)) _ _
      (λ j e. call-due i s.shared.refresh_promise s.shared.world s.shared.outcomes j (ground arith))
      (joined-AllAmong (λ j. mem j (queue s.shared)) i s.calls l.1))

module _ (h : Host) where
  ended-IsLive :
      (i : ℕ) (x : Result (Option Json)) (s : Calls)
      → IsLive s
      → IsLive (record s { calls = set_stage i (ended x) s.calls })
  ended-IsLive i x s l =
      let m : ℕ → Bool = λ j. mem j (queue s.shared) in
      (
        l.0,
        set_stage-AllAmong m i (ended x) s.calls refl
            (AllAmong-mono m (λ j. (j == i) || m j) s.calls (λ j e. ground arith) l.1),
      )

  end_call-IsLive : (c : Call) (r : Reply) (s : Calls) → IsLive s → IsLive (end_call h c r s)
  end_call-IsLive c failed s l = ended-IsLive c.number _ s l
  end_call-IsLive c (response res) s l = ended-IsLive c.number _ s l

  by_stage :
      (st : Stage) (x y s : Calls)
      → IsLive x
      → IsLive y
      → IsLive s
      → IsLive (elim st [ first ↦ x | refreshing ↦ s | second ↦ y | ended r ↦ s ])
  by_stage first x y s lx ly l = lx
  by_stage refreshing x y s lx ly l = l
  by_stage second x y s lx ly l = ly
  by_stage (ended r) x y s lx ly l = l

  answer_call-IsLive :
      (o : Option Call) (r : Reply) (s : Calls) → IsLive s → IsLive (answer_call h o r s)
  unfolding answer_call
  answer_call-IsLive none r s l = l
  answer_call-IsLive (some c) r s l =
      let over = end_call-IsLive c r s l in
      by_stage c.stage _ _ s
        (if_elim IsLive (is_refused h c r s) (λ e. join-IsLive c.number s l) (λ e. over)) over l

  step-IsLive : (e : Event h) (s : Calls) → IsLive s → IsLive (step h e s)
  unfolding step
  step-IsLive (fetches path init) s l = fetch_call-IsLive path init s l
  step-IsLive (answers i r) s l = answer_call-IsLive (find i s.calls) r s l
  step-IsLive (refreshes r) s l = resume_all-IsLive _ (
      AllAmong-mono (λ j. mem j (queue s.shared)) _ _
        (λ j e.
          answer-due h r s.shared.refresh_promise s.shared.world s.shared.outcomes j (ground arith))
        l.1)

  run-IsLive : (es : List (Event h)) (s : Calls) → IsLive s → IsLive (run h es s)
  unfolding run
  run-IsLive [] s l = l
  run-IsLive (e ∷ es) s l = run-IsLive es (step h e s) (step-IsLive e s l)

  -- In any order of calls and answers, a call that waits for a refresh is among the callers of the
  -- one that is on its way.
  pub calls_wait :
      (w : World) (es : List (Event h))
      → let s = run h es (idle w) in AllAmong (λ j. mem j (queue s.shared)) s.calls
  calls_wait w es = (run-IsLive es (idle w) (refl, tt)).1
