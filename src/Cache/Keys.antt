-- ===== src/Cache/Keys.antt =====
-- Query keys and the prefix test by which `@tanstack/react-query` selects queries.
use linktheca.Prelude.{
  ℕ, String, ◌≡◌, ◌↔◌, Bool, true, false, ◌&&◌, Option, none, some, List, [], ◌∷◌, arith, ◌==◌,
  nat_eq, string_eq, eq_iff,
}
use linktheca.Library.Types.{FilterParams, LibraryFilterState}
use linktheca.Radar.Types.{MatchFilters, MatchState}

pub data Part : Type 0 where
  text : String → Part
  number : ℕ → Part
  filters : FilterParams → Part
  match_filters : MatchFilters → Part

abbrev pub Key : Type 0
Key = List Part

abbrev filter_state_beq : Option LibraryFilterState → Option LibraryFilterState → Bool
filter_state_beq none none = true
filter_state_beq (some LibraryFilterState.all) (some LibraryFilterState.all) = true
filter_state_beq (some LibraryFilterState.read) (some LibraryFilterState.read) = true
filter_state_beq (some LibraryFilterState.archived) (some LibraryFilterState.archived) = true
filter_state_beq _ _ = false

abbrev match_state_beq : Option MatchState → Option MatchState → Bool
match_state_beq none none = true
match_state_beq (some MatchState.new) (some MatchState.new) = true
match_state_beq (some MatchState.seen) (some MatchState.seen) = true
match_state_beq _ _ = false

abbrev bool_beq : Option Bool → Option Bool → Bool
bool_beq none none = true
bool_beq (some true) (some true) = true
bool_beq (some false) (some false) = true
bool_beq _ _ = false

abbrev number_beq : Option ℕ → Option ℕ → Bool
number_beq none none = true
number_beq (some a) (some b) = a == b
number_beq _ _ = false

abbrev part_beq : Part → Part → Bool
part_beq (text a) (text b) = a == b
part_beq (number a) (number b) = a == b
part_beq (filters a) (filters b) =
    filter_state_beq a.state b.state && bool_beq a.favorite b.favorite
part_beq (match_filters a) (match_filters b) =
    number_beq a.topic_id b.topic_id && match_state_beq a.state b.state
part_beq _ _ = false

abbrev pub key_beq : Key → Key → Bool
key_beq [] [] = true
key_beq (a ∷ k) (b ∷ l) = part_beq a b && key_beq k l
key_beq _ _ = false

-- `{ queryKey: p }` selects the keys that begin with `p`.
abbrev pub is_prefix : Key → Key → Bool
is_prefix [] k = true
is_prefix (a ∷ p) (b ∷ k) = part_beq a b && is_prefix p k
is_prefix _ _ = false

filter_state_beq_iff : (a b : Option LibraryFilterState) → (filter_state_beq a b ≡ true) ↔ (a ≡ b)
filter_state_beq_iff a b = ground arith

match_state_beq_iff : (a b : Option MatchState) → (match_state_beq a b ≡ true) ↔ (a ≡ b)
match_state_beq_iff a b = ground arith

bool_beq_iff : (a b : Option Bool) → (bool_beq a b ≡ true) ↔ (a ≡ b)
bool_beq_iff a b = ground arith

number_beq_iff : (a b : Option ℕ) → (number_beq a b ≡ true) ↔ (a ≡ b)
number_beq_iff a b = ground arith

part_beq_iff : (a b : Part) → (part_beq a b ≡ true) ↔ (a ≡ b)
part_beq_iff (text a) (text b) = ground (arith, eq_iff a b)
part_beq_iff (number a) (number b) = ground arith
part_beq_iff (filters a) (filters b) =
    ground (arith, filter_state_beq_iff a.state b.state, bool_beq_iff a.favorite b.favorite)
part_beq_iff (match_filters a) (match_filters b) =
    ground (arith, number_beq_iff a.topic_id b.topic_id, match_state_beq_iff a.state b.state)
part_beq_iff _ _ = ground arith

pub key_beq_iff : (k l : Key) → (key_beq k l ≡ true) ↔ (k ≡ l)
key_beq_iff [] [] = ground arith
key_beq_iff [] (b ∷ l) = ground arith
key_beq_iff (a ∷ k) [] = ground arith
key_beq_iff (a ∷ k) (b ∷ l) = ground (arith, part_beq_iff a b, key_beq_iff k l)
