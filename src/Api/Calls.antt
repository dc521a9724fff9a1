-- ===== src/Api/Calls.antt =====
-- Calls of `apiFetch` of web/src/shared/api/client.ts that are on their way together. A call waits for
-- its answer, for the refresh that it shares with others, or for the answer to its second try; the
-- answers may come in any order.
pub mod Among
pub mod Waiting
pub mod Signed
pub mod Alone
use linktheca.Prelude.{
  ℕ, String, Bool, true, false, not, ◌&&◌, Option, none, some, List, [], ◌∷◌, length, map, ◌==◌,
  nat_eq, if◌then◌else◌,
}
use linktheca.Web.Json.{Json}
use linktheca.Web.Http.{Host, Reply, failed, response, RequestInit, is_ok, Thrown, network_error}
use linktheca.Web.App.{World, Result, ok, err}
use linktheca.Api.Client.{request, may_refresh, settle}
use linktheca.Api.Refresh.{Shared, call, answer}

pub data Stage : Type 0 where
  first refreshing second : Stage
  ended : Result (Option Json) → Stage

pub record Call : Type 0 where
  pub number : ℕ
  pub path : String
  pub init : RequestInit
  pub stage : Stage

-- `calls` has the newest first.
pub record Calls : Type 0 where
  pub shared : Shared
  pub calls : List Call

-- Nothing is on its way.
abbrev pub idle : World → Calls
idle w = record { shared = record { world = w; refresh_promise = none; outcomes = [] }; calls = [] }

abbrev pub find : ℕ → List Call → Option Call
find i [] = none
find i (c ∷ cs) = let rest = find i cs in if c.number == i then some c else rest

abbrev pub set_stage : ℕ → Stage → List Call → List Call
set_stage i st [] = []
set_stage i st (c ∷ cs) = (if c.number == i then record c { stage = st } else c) ∷ set_stage i st cs

-- A request with the access token that the store has now.
abbrev pub asked : String → RequestInit → Shared → Shared
asked path init s = record s {
  world = record s.world { sent = request s.world.auth.access_token path init ∷ s.world.sent };
}

-- `apiFetch(path, init)` up to its first `await`
unfoldable pub fetch_call : String → RequestInit → Calls → Calls
fetch_call path init s = record {
  shared = asked path init s.shared;
  calls = record { number = length s.calls; path = path; init = init; stage = first } ∷ s.calls;
}

-- What follows `await refreshSession()` in a call: the second try, or the error.
unfoldable pub resume_call : Option Call → ℕ → Result (Unit {0}) → Calls → Calls
resume_call none i r s = s
resume_call (some c) i (err e) s = record s { calls = set_stage i (ended (err e)) s.calls }
resume_call (some c) i (ok _) s = record {
  shared = asked c.path c.init s.shared;
  calls = set_stage i second s.calls;
}

-- The calls whose refresh has ended go on, the oldest of the list last in it and first to go.
unfoldable pub resume : List (ℕ × Result (Unit {0})) → Calls → Calls
unfolding resume_call
resume [] s = s
resume ((i, r) ∷ os) s = let t = resume os s in resume_call (find i t.calls) i r t

unfoldable pub resume_all : Calls → Calls
unfolding resume
resume_all s = resume s.shared.outcomes (record s { shared = record s.shared { outcomes = [] } })

-- `await refreshSession()`
unfoldable pub join : ℕ → Calls → Calls
unfolding resume_all
join i s = resume_all (record { shared = call i s.shared; calls = set_stage i refreshing s.calls })

module _ (h : Host) where
  abbrev pub end_call : Call → Reply → Calls → Calls
  end_call c failed s = record s { calls = set_stage c.number (ended (err network_error)) s.calls }
  end_call c (response res) s = record s {
    calls = set_stage c.number (ended (settle h none c.path res s.shared.world).0) s.calls;
  }

  -- `!res.ok` and the test for a second try
  abbrev pub is_refused : Call → Reply → Calls → Bool
  is_refused c failed s = false
  is_refused c (response res) s = not (is_ok res) && may_refresh c.path res s.shared.world.storage

  unfoldable pub answer_call : Option Call → Reply → Calls → Calls
  unfolding join
  answer_call none r s = s
  answer_call (some c) r s = elim c.stage [
    | first ↦ if is_refused c r s then join c.number s else end_call c r s
    | refreshing ↦ s
    | second ↦ end_call c r s
    | ended x ↦ s
  ]

  pub data Event : Type 0 where
    fetches : String → RequestInit → Event
    answers : ℕ → Reply → Event
    refreshes : Reply → Event

  unfoldable pub step : Event → Calls → Calls
  unfolding fetch_call answer_call resume_all
  step (fetches path init) s = fetch_call path init s
  step (answers i r) s = answer_call (find i s.calls) r s
  step (refreshes r) s = resume_all (record s { shared = answer h r s.shared })

  unfoldable pub run : List Event → Calls → Calls
  unfolding step
  run [] s = s
  run (e ∷ es) s = run es (step e s)
