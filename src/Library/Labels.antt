-- ===== src/Library/Labels.antt =====
-- web/src/features/library/time.ts and image.ts, and web/src/features/radar/time.ts. The calendar is
-- that of the package `date-fns`.
pub mod Bounds
use linktheca.Prelude.{
  ℕ, zero, suc, ◌+◌, ◌-◌, ◌*◌, ◌/◌, ◌%◌, String, Bool, Option, none, some, append, leb, ltb, ◌==◌,
  nat_eq, if◌then◌else◌,
}
use linktheca.Web.Date.{Date}
use linktheca.Web.Number.{to_string}

-- Whole numbers: `pos n` is n, `negsuc n` is -(n + 1).
pub data ℤ : Type 0 where
  pos negsuc : ℕ → ℤ

pub record Calendar : Type 0 where
  pub difference_in_calendar_days : Date → Date → ℤ
  pub is_same_year : Date → Date → Bool
  pub format : Date → String → String

abbrev by_date : Calendar → Date → Date → String
by_date calendar d now =
    if calendar.is_same_year d now
    then calendar.format d "MMM d"
    else calendar.format d "MMM d, yyyy"

unfoldable pub relative_from_now : Calendar → Date → Date → String
relative_from_now calendar d now = elim (calendar.difference_in_calendar_days now d) [
  | negsuc n ↦ "today"
  | pos days ↦
      if days == 0
      then "today"
      else if days == 1
      then "yesterday"
      else if ltb days 7
      then append (to_string days) " days ago"
      else by_date calendar d now
]

-- `Math.round(n / 60)`: halves go up.
abbrev round_minutes : ℕ → ℕ
round_minutes seconds = (seconds + 30) / 60

-- `Math.max(1, Math.round(seconds / 60))`
unfoldable pub reading_minutes : ℕ → ℕ
reading_minutes seconds = let m = round_minutes seconds in if leb 1 m then m else 1

unfoldable pub reading_time_label : Option ℕ → String
reading_time_label none = "— read"
reading_time_label (some seconds) = append (to_string (reading_minutes seconds)) " min read"

-- The remainder of `%`, which has the sign of its left side, made non-negative:
-- `((id - 1) % 10 + 10) % 10`.
unfoldable pub bucket : ℤ → ℕ
bucket (pos zero) = (10 - 1) % 10
bucket (pos (suc n)) = (n % 10 + 10) % 10
bucket (negsuc n) = (10 - (n + 2) % 10) % 10

unfoldable gradient_class_for : ℤ → String
gradient_class_for id = append "img-" (to_string (bucket id + 1))

unfoldable pub fmt_sweep : Calendar → Date → Option Date → String
fmt_sweep calendar now none = "Awaiting first sweep"
fmt_sweep calendar now (some d) = append "Last sweep · " (relative_from_now calendar d now)

unfoldable pub fmt_last_match : Calendar → Date → Option Date → String
fmt_last_match calendar now none = "—"
fmt_last_match calendar now (some d) = relative_from_now calendar d now
