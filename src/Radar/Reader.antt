-- ===== src/Radar/Reader.antt =====
-- The marking of a match as seen: web/src/features/radar/components/MatchReader.tsx.
pub mod Marking
pub mod Page
use linktheca.Prelude.{
  ℕ, Bool, true, false, ◌&&◌, not, Option, none, some, List, [], ◌∷◌, if◌then◌else◌,
}
use linktheca.Radar.Types.{MatchView, MatchState, new, seen}

-- `marked.current`, and the ids of the updates sent, the newest first.
pub record Marks : Type 0 where
  pub marked : Bool
  pub sent : List ℕ

abbrev pub is_new : Option MatchView → Bool
is_new none = false
is_new (some m) = elim m.state [ new ↦ true | seen ↦ false ]

-- The effect of MatchReader.tsx, which runs whenever the query has other data.
unfoldable pub effect : ℕ → Option MatchView → Marks → Marks
effect match_id found s =
    if is_new found && not s.marked then record { marked = true; sent = match_id ∷ s.sent } else s

unfoldable pub effects : ℕ → List (Option MatchView) → Marks → Marks
unfolding effect
effects match_id [] s = s
effects match_id (d ∷ ds) s = effects match_id ds (effect match_id d s)
