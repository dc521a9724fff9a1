-- ===== src/Web/Number.antt =====
-- `String(n)` of a non-negative integer, and `Number(s)` of a text.
use Prim.Native.Char.{code}
use text.Mathlib.TextLemmas.{nil-append, cons-append}
use linktheca.Prelude.{
  ℕ, zero, suc, ◌+◌, ◌-◌, ◌*◌, ◌/◌, ◌%◌, ◌<◌, String, ◌≡◌, refl, ◌∙◌, ap, inl, inr, false, ◌&&◌,
  Option, none, some, arith, ltb, leb, append, if◌then◌else◌, Bool-cases, ◌==◌, string_eq, eq_iff,
  sym,
}

abbrev digit : ℕ → String
digit zero = "0"
digit (suc zero) = "1"
digit (suc (suc zero)) = "2"
digit (suc (suc (suc zero))) = "3"
digit (suc (suc (suc (suc zero)))) = "4"
digit (suc (suc (suc (suc (suc zero))))) = "5"
digit (suc (suc (suc (suc (suc (suc zero)))))) = "6"
digit (suc (suc (suc (suc (suc (suc (suc zero))))))) = "7"
digit (suc (suc (suc (suc (suc (suc (suc (suc zero)))))))) = "8"
digit _ = "9"

-- `n + 1` rounds are more than `n` has digits.
digits : ℕ → ℕ → String
digits zero n = ""
digits (suc fuel) n =
    let front = digits fuel (n / 10) in if ltb n 10 then digit n else append front (digit (n % 10))

unfoldable pub to_string : ℕ → String
unfolding digits
to_string n = digits (suc n) n

-- The value of a text that consists of digits, read behind the value `acc`.
read_digits : ℕ → String → Option ℕ
read_digits acc String.[] = some acc
read_digits acc (String.◌∷◌ c s) =
    let rest = read_digits (acc * 10 + (code c - 48)) s in
    if leb 48 (code c) && leb (code c) 57 then rest else none

unfoldable pub digits_value : String → Option ℕ
unfolding read_digits
digits_value s = if s == "" then none else read_digits 0 s

to_string_2026 : to_string 2026 ≡ "2026"
unfolding to_string
to_string_2026 = refl

continue : Option ℕ → String → Option ℕ
continue none s = none
continue (some a) s = read_digits a s

read_digits-append :
    (s t : String) (acc : ℕ) → read_digits acc (append s t) ≡ continue (read_digits acc s) t
unfolding read_digits continue
read_digits-append String.[] t acc = rw nil-append
read_digits-append (String.◌∷◌ c s) t acc =
    rw cons-append (ground (arith, read_digits-append s t (acc * 10 + (code c - 48))))

read_digits-digit : (d acc : ℕ) → d < 10 → read_digits acc (digit d) ≡ some (acc * 10 + d)
unfolding read_digits
read_digits-digit zero acc h = refl
read_digits-digit (suc zero) acc h = refl
read_digits-digit (suc (suc zero)) acc h = refl
read_digits-digit (suc (suc (suc zero))) acc h = refl
read_digits-digit (suc (suc (suc (suc zero)))) acc h = refl
read_digits-digit (suc (suc (suc (suc (suc zero))))) acc h = refl
read_digits-digit (suc (suc (suc (suc (suc (suc zero)))))) acc h = refl
read_digits-digit (suc (suc (suc (suc (suc (suc (suc zero))))))) acc h = refl
read_digits-digit (suc (suc (suc (suc (suc (suc (suc (suc zero)))))))) acc h = refl
read_digits-digit (suc (suc (suc (suc (suc (suc (suc (suc (suc zero))))))))) acc h = refl
read_digits-digit (suc (suc (suc (suc (suc (suc (suc (suc (suc (suc x)))))))))) acc h =
    absurd (omega arith)

read_digits-digits : (fuel n : ℕ) → n < fuel → read_digits 0 (digits fuel n) ≡ some n
unfolding digits continue
read_digits-digits zero n h = elim h [ ]
read_digits-digits (suc fuel) n h = elim (Bool-cases (ltb n 10)) [
  | inl small ↦ rw small (read_digits-digit n 0 (ground arith) ∙ ap some (omega arith))
  | inr large ↦ rw large (
      read_digits-append (digits fuel (n / 10)) (digit (n % 10)) 0
      ∙ ap (λ o. continue o (digit (n % 10))) (read_digits-digits fuel (n / 10) (ground arith))
      ∙ read_digits-digit (n % 10) (n / 10) (omega arith)
      ∙ ap some (omega arith))
]

zero_of_nil : (n : ℕ) → to_string n ≡ "" → n ≡ 0
unfolding to_string read_digits
zero_of_nil n p =
    let q = sym (read_digits-digits (suc n) n (omega arith)) ∙ ap (read_digits 0) p in ground arith

zero_not_nil : (to_string 0 == "") ≡ false
unfolding to_string
zero_not_nil = refl

to_string-ne-nil : (n : ℕ) → (to_string n == "") ≡ false
to_string-ne-nil n = elim (Bool-cases (to_string n == "")) [
  | inr e ↦ e
  | inl e ↦ rw (zero_of_nil n ((eq_iff (to_string n) "").0 e)) zero_not_nil
]

pub digits_value-to_string : (n : ℕ) → digits_value (to_string n) ≡ some n
unfolding digits_value to_string
digits_value-to_string n = rw (to_string-ne-nil n) (read_digits-digits (suc n) n (omega arith))
