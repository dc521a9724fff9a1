-- ===== src/Library/Requests/Contents.antt =====
-- What the requests of web/src/features/library/api.ts carry.
use linktheca.Prelude.{
  String, nullish_or, ◌∙◌, ◌≡◌, refl, Bool, Option, none, some, arith, if◌then◌else◌, ◌==◌,
  string_eq, [],
}
use mathlib.Core.Option
use linktheca.Web.Json.{bool, str, get}
use linktheca.Web.SearchParams
use linktheca.Web.SearchParams.{SearchParams, set, get-set}
use linktheca.Web.Number.{to_string}
use linktheca.Library.Types.{LibraryState}
use linktheca.Library.Requests.{
  UpdateInput, ListArgs, update_body, state_name, note_json, bool_name, build_query, set_state,
  set_favorite,
}

nullish_or-none : (o : Option String) → nullish_or o none ≡ o
nullish_or-none none = refl
nullish_or-none (some a) = refl

before_state : ListArgs → String → Option String
before_state args k =
    if "offset" == k
    then some (to_string args.offset)
    else if "limit" == k
    then some (to_string args.limit)
    else none

before_favorite : ListArgs → String → Option String
before_favorite args k =
    if "state" == k
    then nullish_or (Option.map state_name args.state) (before_state args k)
    else before_state args k

-- The body of an update of an article has the state, the favorite flag and the note exactly if they
-- are given, a note of null as null.
get-update_body :
    (input : UpdateInput)
    → (get "state" (update_body input) ≡ Option.map (λ s. str (state_name s)) input.state)
      × (get "is_favorite" (update_body input) ≡ Option.map bool input.is_favorite)
      × (get "note" (update_body input) ≡ Option.map note_json input.note)
unfolding update_body
get-update_body input = (ground arith, ground arith, ground arith)

get-set_state :
    (s : Option LibraryState) (p : SearchParams) (k : String)
    → SearchParams.get (set_state s p) k ≡ (
        if "state" == k
        then nullish_or (Option.map state_name s) (SearchParams.get p k)
        else SearchParams.get p k)
get-set_state none p k = ground arith
get-set_state (some s) p k = get-set p "state" (state_name s) k ∙ ground arith

get-set_favorite :
    (b : Option Bool) (p : SearchParams) (k : String)
    → SearchParams.get (set_favorite b p) k ≡ (
        if "favorite" == k
        then nullish_or (Option.map bool_name b) (SearchParams.get p k)
        else SearchParams.get p k)
get-set_favorite none p k = ground arith
get-set_favorite (some b) p k = get-set p "favorite" (bool_name b) k ∙ ground arith

get_field :
    (args : ListArgs) (k : String)
    → SearchParams.get (build_query args) k ≡ (
        if "favorite" == k
        then nullish_or (Option.map bool_name args.favorite) (before_favorite args k)
        else before_favorite args k)
unfolding build_query before_favorite before_state SearchParams.get
get_field args k =
    let p = set [] "limit" (to_string args.limit) in
    let q = set p "offset" (to_string args.offset) in
    rw
      (
        get-set_favorite args.favorite (set_state args.state q) k,
        get-set_state args.state q k,
        get-set p "offset" (to_string args.offset) k,
        get-set [] "limit" (to_string args.limit) k,
      )
      refl

-- The query of the list has the limit and the offset in digits, and the state and the favorite flag
-- exactly if they are given.
get-build_query :
    (args : ListArgs)
    → (SearchParams.get (build_query args) "limit" ≡ some (to_string args.limit))
      × (SearchParams.get (build_query args) "offset" ≡ some (to_string args.offset))
      × (SearchParams.get (build_query args) "state" ≡ Option.map state_name args.state)
      × (SearchParams.get (build_query args) "favorite" ≡ Option.map bool_name args.favorite)
unfolding before_favorite before_state
get-build_query args = (
  get_field args "limit",
  get_field args "offset",
  get_field args "state" ∙ nullish_or-none (Option.map state_name args.state),
  get_field args "favorite" ∙ nullish_or-none (Option.map bool_name args.favorite),
)
