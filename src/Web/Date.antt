-- ===== src/Web/Date.antt =====
-- JavaScript's `Date`: milliseconds since 1970, or an invalid date.
use linktheca.Prelude.{ℕ, Option}

pub record Date : Type 0 where
  pub time : Option ℕ
