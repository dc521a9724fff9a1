-- ===== src/Cache/Assoc.antt =====
-- A list of entries as a query cache, an instance of Cache/Interface.
use linktheca.Prelude.{
  ◌≡◌, refl, ap, inl, inr, Bool, true, false, ◌||◌, Option, none, some, List, [], ◌∷◌, arith,
  if◌then◌else◌, any, All, Bool-cases,
}
use linktheca.Cache.Keys.{Key, key_beq, key_beq_iff, is_prefix}
use linktheca.Cache.Interface.{Data, QueryClient}

pub record Entry : Type 0 where
  pub key : Key
  pub value : Data
  pub invalid : Bool

abbrev pub Entries : Type 0
Entries = List Entry

abbrev get : Entries → Key → Option Data
get [] k = none
get (e ∷ c) k = if key_beq e.key k then some e.value else get c k

abbrev set : Entries → Key → Option Data → Entries
set c k none = c
set c k (some d) = record { key = k; value = d; invalid = false } ∷ c

-- Older entries of a key are shadowed; the list shows what a look-up finds.
abbrev listed : Entries → Entries → Key → List (Key × Option Data)
listed all [] p = []
listed all (e ∷ c) p =
    let rest = listed all c p in if is_prefix p e.key then (e.key, get all e.key) ∷ rest else rest

abbrev invalidate : Entries → Key → Entries
invalidate [] p = []
invalidate (e ∷ c) p = record e { invalid = e.invalid || is_prefix p e.key } ∷ invalidate c p

abbrev remove : Entries → Key → Entries
remove [] p = []
remove (e ∷ c) p = let rest = remove c p in if is_prefix p e.key then rest else e ∷ rest

abbrev is_invalid : Entries → Key → Bool
is_invalid [] k = false
is_invalid (e ∷ c) k = if key_beq e.key k then e.invalid else is_invalid c k

pub get-invalidate : (c : Entries) (p k : Key) → get (invalidate c p) k ≡ get c k
get-invalidate [] p k = refl
get-invalidate (e ∷ c) p k = ground (arith, get-invalidate c p k)

same_prefix : (p k l : Key) → key_beq k l ≡ true → is_prefix p k ≡ is_prefix p l
same_prefix p k l e = ap (is_prefix p) ((key_beq_iff k l).0 e)

pub get-remove :
    (c : Entries) (p k : Key) → get (remove c p) k ≡ (if is_prefix p k then none else get c k)
get-remove [] p k = ground arith
get-remove (e ∷ c) p k = ground (arith, get-remove c p k, same_prefix p e.key k)

pub sound :
    (all c : Entries) (p : Key)
    → All (λ e. (is_prefix p e.0 ≡ true) × (e.1 ≡ get all e.0)) (listed all c p)
sound all [] p = tt
sound all (e ∷ c) p = elim (Bool-cases (is_prefix p e.key)) [
  | inl h ↦ rw h ((h, refl), sound all c p)
  | inr h ↦ rw h (sound all c p)
]

pub complete :
    (all c : Entries) (p k : Key) (d : Data)
    → get c k ≡ some d
    → is_prefix p k ≡ true
    → any (λ e. key_beq e.0 k) (listed all c p) ≡ true
complete all [] p k d h q = cc
complete all (e ∷ c) p k d h q = ground (arith, complete all c p k d, same_prefix p e.key k)

pub marks :
    (c : Entries) (p k : Key) (d : Data)
    → get c k ≡ some d
    → is_prefix p k ≡ true
    → is_invalid (invalidate c p) k ≡ true
marks [] p k d h q = cc
marks (e ∷ c) p k d h q = ground (arith, marks c p k d, same_prefix p e.key k)

pub keeps : (c : Entries) (p k : Key) → is_invalid c k ≡ true → is_invalid (invalidate c p) k ≡ true
keeps [] p k h = h
keeps (e ∷ c) p k h = ground (arith, keeps c p k)

abbrev pub assoc : QueryClient
assoc = record {
  Cache = Entries;
  get_query_data = get;
  set_query_data = set;
  get_queries_data = λ c p. listed c c p;
  cancel_queries = λ c p. c;
  invalidate_queries = invalidate;
  remove_queries = remove;
  is_invalidated = is_invalid;
  get-set = λ c k d j. refl;
  set_undefined = λ c k. refl;
  get-cancel = λ c p k. refl;
  get-invalidate = get-invalidate;
  get-remove = get-remove;
  listed_sound = λ c p. sound c c p;
  listed_complete = λ c p k d. complete c c p k d;
  invalidate_marks = marks;
  invalidate_keeps = keeps;
}
