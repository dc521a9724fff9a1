-- ===== src/Web/Json.antt =====
-- JSON values, as `res.json()` returns them and `JSON.stringify` takes them.
use linktheca.Prelude.{ℕ, String, Bool, false, Option, none, some, ◌==◌, string_eq, if◌then◌else◌}

-- A number is written as a sign, digits and the count of digits behind the point.
pub record Decimal : Type 0 where
  pub negative : Bool
  pub digits : ℕ
  pub scale : ℕ

mutual
  pub data Json : Type 0 where
    null : Json
    bool : Bool → Json
    num : Decimal → Json
    str : String → Json
    arr : Items → Json
    obj : Fields → Json

  pub data Items : Type 0 where
    end : Items
    item : Json → Items → Items

  pub data Fields : Type 0 where
    nil : Fields
    field : String → Json → Fields → Fields

-- A non-negative integer, such as an id.
abbrev pub int : ℕ → Json
int n = num (record { negative = false; digits = n; scale = 0 })

abbrev pub find : String → Fields → Option Json
find k nil = none
find k (field j v fs) = if j == k then some v else find k fs

-- `body.k`, undefined if `body` has no such property.
abbrev pub get : String → Json → Option Json
get k (obj fs) = find k fs
get k null = none
get k (bool b) = none
get k (num n) = none
get k (str s) = none
get k (arr xs) = none

-- `if (o !== undefined) body.k = o`
abbrev pub optional {ℓ} : {A : Type ℓ} → String → (A → Json) → Option A → Fields → Fields
optional k to none fs = fs
optional k to (some a) fs = field k (to a) fs

-- `typeof body.k === "string"`, with the text.
abbrev pub text : Option Json → Option String
text none = none
text (some (str s)) = some s
text (some null) = none
text (some (bool b)) = none
text (some (num n)) = none
text (some (arr xs)) = none
text (some (obj fs)) = none
