-- ===== src/Web/Query.antt =====
-- What a component of web/src sees of a query of the package `@tanstack/react-query`. The cache
-- decides on it: a query is pending until it has data or an error, and `isLoading` says that it is
-- pending and being fetched. It is pending and not fetched while the browser is offline.
pub mod Listing
use linktheca.Prelude.{
  String, Bool, true, false, ◌&&◌, ◌||◌, Option, none, some, List, [], ◌∷◌, ◌≡◌, ◌==◌, string_eq,
  nat_eq,
}
use linktheca.Web.Http.{Thrown, api}

pub data Status : Type 0 where
  pending error success : Status

pub record Query {ℓ} (A : Type ℓ) : Type ℓ where
  pub status : Status
  pub found : Option A
  pub failure : Option Thrown
  pub is_fetching : Bool

module _ {ℓ} {A : Type ℓ} where
  abbrev pub is_pending : Query A → Bool
  is_pending q = elim q.status [ pending ↦ true | _ ↦ false ]

  abbrev pub is_error : Query A → Bool
  is_error q = elim q.status [ error ↦ true | _ ↦ false ]

  abbrev pub is_success : Query A → Bool
  is_success q = elim q.status [ success ↦ true | _ ↦ false ]

  abbrev pub is_loading : Query A → Bool
  is_loading q = q.is_fetching && is_pending q

  -- What the package documents of its results.
  pub record IsResult (q : Query A) : Type ℓ where
    pub no_data : q.status ≡ pending → q.found ≡ none
    pub has_data : q.status ≡ success → (a : A) × (q.found ≡ some a)
    pub has_error : q.status ≡ error → (e : Thrown) × (q.failure ≡ some e)

-- `error instanceof ApiError && error.code === code`
abbrev pub has_code : String → Option Thrown → Bool
has_code code (some (api e)) = e.code == code
has_code code (some _) = false
has_code code none = false

-- `error instanceof ApiError && error.status === 404`
abbrev pub is_not_found : Option Thrown → Bool
is_not_found (some (api e)) = e.status == 404
is_not_found (some _) = false
is_not_found none = false
