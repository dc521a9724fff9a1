-- ===== src/Web/Schema.antt =====
-- `parseInDev` of web/src/features/library/api.ts and web/src/features/radar/api.ts. The schemas of
-- `zod` and the build's settings are not part of the sources.
use linktheca.Prelude.{Bool, Option, none, some, String, if◌then◌else◌}
use linktheca.Web.Json.{Json}
use linktheca.Web.Http.{Thrown, schema_error, type_error}
use linktheca.Web.App.{App, pure, throw}
use linktheca.Web.Date.{Date}
use linktheca.Web.SearchParams.{SearchParams}

-- `parse` is `none` where it throws. `cast` is the value taken at its word, `none` where the code
-- that reads it throws.
pub record Schema {ℓ} (A : Type ℓ) : Type ℓ where
  pub parse : Option Json → Option A
  pub cast : Option Json → Option A

-- The build's mode, `new Date(…)` on a text, and `URLSearchParams.toString`.
pub record Platform : Type 0 where
  pub dev : Bool
  pub new_date : String → Date
  pub encode : SearchParams → String

module _ {ℓ} {A : Type ℓ} where
  abbrev value_or : Thrown → Option A → App A
  value_or e none = throw e
  value_or e (some a) = pure a

  unfoldable pub parse_in_dev : Platform → Schema A → Option Json → App A
  parse_in_dev platform schema raw =
      if platform.dev
      then value_or schema_error (schema.parse raw)
      else value_or type_error (schema.cast raw)
