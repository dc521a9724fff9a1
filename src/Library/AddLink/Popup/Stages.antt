-- ===== src/Library/AddLink/Popup/Stages.antt =====
-- The progress that web/src/features/library/components/AddLinkDialog.tsx shows while it saves.
use linktheca.Prelude.{ℕ, ◌+◌, ◌-◌, ◌≡◌, ◌∙◌, ap, some, List, [], ◌∷◌, arith, leb, if◌then◌else◌}
use linktheca.Library.AddLink.Popup.{Progress, begin, elapsed, progress_stages, get_elem?}

-- Some time after the start, in pieces.
abbrev elapsed_all : List ℕ → Progress → Progress
elapsed_all [] p = p
elapsed_all (ms ∷ mss) p = elapsed_all mss (elapsed ms p)

abbrev pub total : List ℕ → ℕ
total [] = 0
total (ms ∷ mss) = ms + total mss

abbrev at : ℕ → Progress
at ms =
    if leb 3500 ms
    then record { stage = 2; timers = [] }
    else if leb 1500 ms
    then record { stage = 1; timers = (3500 - ms, 2) ∷ [] }
    else record { stage = 0; timers = (1500 - ms, 1) ∷ (3500 - ms, 2) ∷ [] }

elapsed-at : (ms k : ℕ) → elapsed ms (at k) ≡ at (k + ms)
unfolding elapsed
elapsed-at ms k = ground arith

elapsed_all-at : (mss : List ℕ) (k : ℕ) → elapsed_all mss (at k) ≡ at (k + total mss)
elapsed_all-at [] k = ap at {x = k} {y = k + 0} (omega arith)
elapsed_all-at (ms ∷ mss) k =
    ap (elapsed_all mss) (elapsed-at ms k)
    ∙ elapsed_all-at mss (k + ms)
    ∙ ap at {x = k + ms + total mss} {y = k + (ms + total mss)} (omega arith)

-- While a link is saved, however the time is cut into pieces, the text shown is that of the first
-- stage for less than 1.5 seconds, of the second for less than 3.5 seconds, and of the last from
-- then on.
stage_shown :
    (mss : List ℕ)
    → get_elem? progress_stages (elapsed_all mss begin).stage
      ≡ some (
          if leb 3500 (total mss)
          then "Saving to library…"
          else if leb 1500 (total mss)
          then "Extracting content…"
          else "Fetching page…")
unfolding begin
stage_shown mss = rw (elapsed_all-at mss 0) (ground arith)
