-- ===== src/Api/Calls/Among.antt =====
-- The calls of `apiFetch` of web/src/shared/api/client.ts that wait for a refresh, as numbers, and the
-- steps that let them go on.
use linktheca.Prelude.{
  ℕ, ◌≡◌, refl, Bool, true, false, not, ◌||◌, Option, none, some, List, [], ◌∷◌, All, arith, ◌==◌,
  nat_eq,
}
use linktheca.Web.App.{Result, ok, err}
use linktheca.Api.Calls.{
  Stage, first, refreshing, second, ended, Call, Calls, find, set_stage, resume_call, resume,
}

abbrev pub mem : ℕ → List ℕ → Bool
mem j [] = false
mem j (i ∷ is) = (j == i) || mem j is

abbrev pub ids : List (ℕ × Result (Unit {0})) → List ℕ
ids [] = []
ids ((i, r) ∷ os) = i ∷ ids os

abbrev is_refreshing : Stage → Bool
is_refreshing st = elim st [ first ↦ false | refreshing ↦ true | second ↦ false | ended x ↦ false ]

-- A call that waits for a refresh is one of those.
abbrev is_among : (ℕ → Bool) → Call → Bool
is_among m c = not (is_refreshing c.stage) || m c.number

abbrev pub AllAmong : (ℕ → Bool) → List Call → Type 0
AllAmong m cs = All (λ c. is_among m c ≡ true) cs

pub AllAmong-mono :
    (m n : ℕ → Bool) (cs : List Call)
    → ((j : ℕ) → m j ≡ true → n j ≡ true)
    → AllAmong m cs
    → AllAmong n cs
AllAmong-mono m n [] f a = tt
AllAmong-mono m n (c ∷ cs) f a = (ground (arith, f c.number, a.0), AllAmong-mono m n cs f a.1)

-- Who goes on need not be among them any more.
pub set_stage-AllAmong :
    (m : ℕ → Bool) (i : ℕ) (st : Stage) (cs : List Call)
    → is_refreshing st ≡ false
    → AllAmong (λ j. (j == i) || m j) cs
    → AllAmong m (set_stage i st cs)
set_stage-AllAmong m i st [] e a = tt
set_stage-AllAmong m i st (c ∷ cs) e a = (ground (arith, a.0), set_stage-AllAmong m i st cs e a.1)

pub joined-AllAmong :
    (m : ℕ → Bool) (i : ℕ) (cs : List Call)
    → AllAmong m cs
    → AllAmong (λ j. (j == i) || m j) (set_stage i refreshing cs)
joined-AllAmong m i [] a = tt
joined-AllAmong m i (c ∷ cs) a = (ground (arith, a.0), joined-AllAmong m i cs a.1)

absent-AllAmong :
    (m : ℕ → Bool) (i : ℕ) (cs : List Call)
    → find i cs ≡ none
    → AllAmong (λ j. (j == i) || m j) cs
    → AllAmong m cs
absent-AllAmong m i [] e a = tt
absent-AllAmong m i (c ∷ cs) e a = (ground (arith, a.0), absent-AllAmong m i cs (ground arith) a.1)

resume_call-AllAmong :
    (m : ℕ → Bool) (o : Option Call) (i : ℕ) (r : Result (Unit {0})) (s : Calls)
    → find i s.calls ≡ o
    → AllAmong (λ j. (j == i) || m j) s.calls
    → AllAmong m (resume_call o i r s).calls
unfolding resume_call
resume_call-AllAmong m none i r s e a = absent-AllAmong m i s.calls e a
resume_call-AllAmong m (some c) i (ok u) s e a = set_stage-AllAmong m i second s.calls refl a
resume_call-AllAmong m (some c) i (err x) s e a =
    set_stage-AllAmong m i (ended (err x)) s.calls refl a

pub resume-AllAmong :
    (m : ℕ → Bool) (os : List (ℕ × Result (Unit {0}))) (s : Calls)
    → AllAmong (λ j. mem j (ids os) || m j) s.calls
    → AllAmong m (resume os s).calls
unfolding resume
resume-AllAmong m [] s a = a
resume-AllAmong m ((i, r) ∷ os) s a =
    resume_call-AllAmong m (find i (resume os s).calls) i r (resume os s) refl (
      resume-AllAmong (λ j. (j == i) || m j) os s
        (AllAmong-mono (λ j. ((j == i) || mem j (ids os)) || m j)
          (λ j. mem j (ids os) || ((j == i) || m j)) s.calls (λ j. ground arith) a))
