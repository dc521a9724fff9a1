-- ===== src/Radar/Reader/Marking.antt =====
-- Runs of the effect of web/src/features/radar/components/MatchReader.tsx.
use linktheca.Prelude.{
  ℕ, ◌≡◌, refl, Bool-cases, inl, inr, Bool, true, false, ◌||◌, Option, List, [], ◌∷◌, any,
  if◌then◌else◌,
}
use linktheca.Radar.Types.{MatchView}
use linktheca.Radar.Reader.{Marks, is_new, effects}

abbrev at : Bool → List ℕ → Marks
at marked sent = record { marked = marked; sent = sent }

unmoved :
    (id : ℕ) (ds : List (Option MatchView)) (sent : List ℕ)
    → effects id ds (at true sent) ≡ at true sent
unfolding effects
unmoved id [] sent = refl
unmoved id (d ∷ ds) sent = elim (Bool-cases (is_new d)) [
  | inl n ↦ rw n (unmoved id ds sent)
  | inr n ↦ rw n (unmoved id ds sent)
]

after_mark :
    (id : ℕ) (b : Bool) (ds : List (Option MatchView)) (sent : List ℕ)
    → effects id ds (if b then at true (id ∷ sent) else at false sent)
      ≡ (if b || any is_new ds then at true (id ∷ sent) else at false sent)
unfolding effects
after_mark id true [] sent = refl
after_mark id true (d ∷ ds) sent = unmoved id (d ∷ ds) (id ∷ sent)
after_mark id false [] sent = refl
after_mark id false (d ∷ ds) sent = elim (Bool-cases (is_new d)) [
  | inl n ↦ rw n (unmoved id ds (id ∷ sent))
  | inr n ↦ rw n (after_mark id false ds sent)
]

-- However the data of an opened match change, its update to seen is sent once if the match is ever
-- seen to be new, and else not at all.
effects_lem :
    (id : ℕ) (ds : List (Option MatchView)) (sent : List ℕ)
    → effects id ds (record { marked = false; sent = sent }) ≡ (
        if any is_new ds
        then record { marked = true; sent = id ∷ sent }
        else record { marked = false; sent = sent })
effects_lem id ds sent = after_mark id false ds sent
