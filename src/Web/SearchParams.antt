-- ===== src/Web/SearchParams.antt =====
-- `URLSearchParams`: an ordered list of names and values.
use linktheca.Prelude.{
  String, ◌≡◌, refl, Option, none, some, List, [], ◌∷◌, arith, ◌==◌, string_eq, eq_iff,
  if◌then◌else◌,
}

abbrev pub SearchParams : Type 0
SearchParams = List (String × String)

-- The first value of a name, null if there is none.
unfoldable pub get : SearchParams → String → Option String
get [] k = none
get ((j, v) ∷ p) k = if j == k then some v else get p k

unfoldable pub delete : SearchParams → String → SearchParams
delete [] k = []
delete ((j, v) ∷ p) k = let rest = delete p k in if j == k then rest else (j, v) ∷ rest

-- The first entry of the name gets the value and the later ones go; a new name goes to the end.
unfoldable pub set : SearchParams → String → String → SearchParams
unfolding delete
set [] k v = (k, v) ∷ []
set ((j, u) ∷ p) k v = let rest = set p k v in if j == k then (k, v) ∷ delete p k else (j, u) ∷ rest

pub get-delete :
    (p : SearchParams) (k j : String) → get (delete p k) j ≡ (if k == j then none else get p j)
unfolding get delete
get-delete [] k j = ground arith
get-delete ((i, v) ∷ p) k j = ground (arith, get-delete p k j, eq_iff i k, eq_iff i j, eq_iff k j)

pub get-set :
    (p : SearchParams) (k v j : String) → get (set p k v) j ≡ (if k == j then some v else get p j)
unfolding get set
get-set [] k v j = refl
get-set ((i, u) ∷ p) k v j =
    ground (arith, get-set p k v j, get-delete p k j, eq_iff i k, eq_iff i j, eq_iff k j)
