-- ===== src/Web/Dialog/Flights.antt =====
-- The mounts whose requests are on their way, as a list without repetition.
use linktheca.Prelude.{
  ℕ, suc, ◌<◌, ◌≡◌, refl, true, false, List, [], ◌∷◌, arith, length, ◌==◌, nat_eq, Bool-cases, inl,
  inr, if◌then◌else◌,
}
use linktheca.Web.Dialog.{mem, remove}

abbrev pub Below : ℕ → List ℕ → Type 0
Below k [] = Unit
Below k (n ∷ ns) = (n < k) × Below k ns

abbrev pub Distinct : List ℕ → Type 0
Distinct [] = Unit
Distinct (n ∷ ns) = (mem n ns ≡ false) × Distinct ns

pub Below-suc : (k : ℕ) (ns : List ℕ) → Below k ns → Below (suc k) ns
Below-suc k [] b = b
Below-suc k (n ∷ ns) b = (omega (arith, b.0), Below-suc k ns b.1)

pub mem-Below : (k : ℕ) (ns : List ℕ) → Below k ns → mem k ns ≡ false
mem-Below k [] b = refl
mem-Below k (n ∷ ns) b = ground (arith, mem-Below k ns b.1)

pub mem-remove :
    (m n : ℕ) (ns : List ℕ) → mem m (remove n ns) ≡ (if m == n then false else mem m ns)
mem-remove m n [] = ground arith
mem-remove m n (x ∷ ns) = ground (arith, mem-remove m n ns)

pub remove-Below : (k n : ℕ) (ns : List ℕ) → Below k ns → Below k (remove n ns)
remove-Below k n [] b = b
remove-Below k n (x ∷ ns) b = ground (arith, remove-Below k n ns b.1)

pub remove-Distinct : (n : ℕ) (ns : List ℕ) → Distinct ns → Distinct (remove n ns)
remove-Distinct n [] d = d
remove-Distinct n (x ∷ ns) d = ground (arith, remove-Distinct n ns d.1, mem-remove x n ns)

remove_absent : (n : ℕ) (ns : List ℕ) → mem n ns ≡ false → remove n ns ≡ ns
remove_absent n [] a = refl
remove_absent n (x ∷ ns) a = ground (arith, remove_absent n ns)

pub length-remove :
    (n : ℕ) (ns : List ℕ) → Distinct ns → mem n ns ≡ true → suc (length (remove n ns)) ≡ length ns
length-remove n [] d m = ground arith
length-remove n (x ∷ ns) d m = elim (Bool-cases (x == n)) [
  | inl e ↦ ground (arith, remove_absent n ns)
  | inr e ↦ ground (arith, length-remove n ns d.1)
]
