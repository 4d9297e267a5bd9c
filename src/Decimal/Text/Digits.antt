-- ===== src/Decimal/Text/Digits.antt =====
-- Digits of internal/decimal/decimal.go: what is printed is digits, and reads as the number.
use joinanny.Base.{
  subst, ◌∙◌, ℕ, zero, suc, ◌+◌, ◌-◌, ◌*◌, ◌/◌, ◌%◌, ◌≤◌, ◌<◌, ◌≡◌, refl, ◌⊎◌, sym, ap, inl, inr,
  true, false, List, [], ◌∷◌, ◌++◌, leb, ◌==◌, length, All, arith, Bool-cases,
}
use joinanny.Base.Lists.{length-append, All-append}
use joinanny.Base.Text.Codes.{IsDigit}
use joinanny.Decimal.Text.{all_digits, read, print_from, zeros, padded}

print_from-zero : (fuel : ℕ) (out : List ℕ) → print_from fuel 0 out ≡ out
unfolding print_from
print_from-zero zero out = refl
print_from-zero (suc fuel) out = refl

-- A round of the loop.
print_from_step :
    (fuel n : ℕ) (out : List ℕ)
    → (n == 0) ≡ false
    → print_from (suc fuel) n out ≡ print_from fuel (n / 10) ((b'0' + n % 10) ∷ out)
unfolding print_from
print_from_step fuel n out e = rw (e, print_from) refl

-- What holds of the digits so far, and of one more digit, holds at the end.
print_from_rule :
    (P : ℕ → List ℕ → Type 0)
    → ((n : ℕ) (out : List ℕ) → (n == 0) ≡ false → P n out → P (n / 10) ((b'0' + n % 10) ∷ out))
    → (fuel n : ℕ) (out : List ℕ) → n ≤ fuel
    → P n out
    → P 0 (print_from fuel n out)
print_from_rule P keep zero n out h p =
    let z : n ≡ 0 = omega arith in
    subst (λ xs. P 0 xs) (sym (print_from-zero 0 out) ∙ ap (λ m. print_from 0 m out) (sym z))
      (subst (λ m. P m out) z p)
print_from_rule P keep (suc fuel) n out h p = elim (Bool-cases (n == 0)) [
  | inl e ↦
      let z : n ≡ 0 = ground arith in
      subst (λ xs. P 0 xs)
        (sym (print_from-zero (suc fuel) out) ∙ ap (λ m. print_from (suc fuel) m out) (sym z))
        (subst (λ m. P m out) z p)
  | inr e ↦
      subst (λ xs. P 0 xs) (sym (print_from_step fuel n out e))
        (print_from_rule P keep fuel (n / 10) ((b'0' + n % 10) ∷ out) (ground arith)
          (keep n out e p))
]

read-print_from : (n : ℕ) → read 0 (print_from n n []) ≡ n
read-print_from n =
    print_from_rule (λ m out. read m out ≡ n)
      (λ m out e p.
        let back : m / 10 * 10 + (b'0' + m % 10 - b'0') ≡ m = omega arith in
        subst (λ k. read k out ≡ n) (sym back) p)
      n n [] (omega arith) refl

print_from-IsDigit : (n : ℕ) → All IsDigit (print_from n n [])
print_from-IsDigit n =
    print_from_rule (λ m out. All IsDigit out) (λ m out e p. ((omega arith, omega arith), p)) n n []
      (omega arith) tt

-- A number that is not 0 has a digit.
print_from_some : (n : ℕ) → 0 < n → 0 < length (print_from n n [])
print_from_some n h =
    elim (print_from_rule (λ m out. (0 < m) ⊎ (0 < length out)) (λ m out e p. inr (omega arith)) n n
      [] (omega arith) (inl h)) [ inl bad ↦ absurd (omega arith) | inr some ↦ some ]

read-zeros : (k : ℕ) (xs : List ℕ) → read 0 (zeros k ++ xs) ≡ read 0 xs
unfolding zeros
read-zeros zero xs = refl
read-zeros (suc k) xs = read-zeros k xs

zeros-IsDigit : (k : ℕ) → All IsDigit (zeros k)
unfolding zeros
zeros-IsDigit zero = tt
zeros-IsDigit (suc k) = ((omega arith, omega arith), zeros-IsDigit k)

length-zeros : (k : ℕ) → length (zeros k) ≡ k
unfolding zeros
length-zeros zero = refl
length-zeros (suc k) = omega (arith, length-zeros k)

pub record Spells (n : ℕ) (digits : List ℕ) : Type 0 where
  pub only_digits : All IsDigit digits
  pub reads : read 0 digits ≡ n
  pub some_digit : 0 < length digits

pub print_from-Spells : (n : ℕ) → 0 < n → Spells n (print_from n n [])
print_from-Spells n h = record {
  only_digits = print_from-IsDigit n;
  reads = read-print_from n;
  some_digit = print_from_some n h;
}

-- The padded digits leave at least one before the point.
pub padded-Spells :
    (scale n : ℕ) → 0 < n → Spells n (padded scale n) × (scale < length (padded scale n))
unfolding padded
padded-Spells scale n h =
    let digits = print_from n n [] in
    let s = print_from-Spells n h in
    let k = scale - length digits + 1 in
    elim (Bool-cases (leb (length digits) scale)) [
      | inr e ↦ rw e (s, ground arith)
      | inl e ↦ rw e (
        record {
          only_digits = All-append IsDigit (zeros k) digits (zeros-IsDigit k) s.only_digits;
          reads = read-zeros k digits ∙ s.reads;
          some_digit = omega (arith, length-append (zeros k) digits, s.some_digit);
        },
        omega (arith, length-append (zeros k) digits, length-zeros k),
      )
    ]

pub all_digits-IsDigit : (cs : List ℕ) → All IsDigit cs → all_digits cs ≡ true
unfolding all_digits
all_digits-IsDigit [] h = refl
all_digits-IsDigit (c ∷ cs) (h, hs) = rw (all_digits-IsDigit cs hs) (ground arith)
