-- ===== src/Decimal/Text/RoundTrip.antt =====
-- `Parse` of internal/decimal/decimal.go reads back what `String` prints.
use mathlib.Core.List.{append-nil}
use joinanny.Base.{
  ℕ, suc, ◌+◌, ◌-◌, ◌<◌, ◌≡◌, ◌≢◌, ◌%◌, refl, sym, ap, ◌∙◌, subst, ◌⊎◌, inl, inr, Bool, true, false,
  some, List, [], ◌∷◌, ◌++◌, ltb, ◌==◌, length, take, drop, All, arith, Bool-cases,
}
use joinanny.Base.Int.{ℤ, pos, negsuc, neg_part, eq_of_parts}
use joinanny.Base.Lists.{take-drop, length-drop, length-append, All-append, All-take, All-drop}
use joinanny.Base.Text.{trim_space}
use joinanny.Base.Text.Codes.{
  codes, of_codes, IsDigit, IsNumeric, codes-of_codes, trim_space-NoSpace, numeric-NoSpace, NoSpace,
}
use joinanny.Decimal.{Decimal, coefficient, normalize}
use joinanny.Decimal.Scale.{coeff-normalize, scale-normalize}
use joinanny.Decimal.Normal.{magnitude, normalize-IsNormal, normalize_unique}
use joinanny.Decimal.Text.{
  Parsed, parsed, split_point, all_digits, signed, parse_digits, parse_parts, parse_unsigned,
  parse_codes, parse, padded, sign_codes, with_point, print_normal, to_string,
}
use joinanny.Decimal.Text.Digits.{Spells, print_from-Spells, padded-Spells, all_digits-IsDigit}

-- Digits have no point to split at.
split_digits : (ds : List ℕ) → All IsDigit ds → split_point ds ≡ (ds, [])
unfolding split_point
split_digits [] h = refl
split_digits (c ∷ ds) (h, hs) =
    let e : (c == b'.') ≡ false = ground arith in rw (e, split_digits ds hs) refl

split_with_point :
    (ws fs : List ℕ)
    → All IsDigit ws
    → All IsDigit fs
    → split_point (ws ++ b'.' ∷ fs) ≡ (ws, fs ∷ [])
unfolding split_point
split_with_point [] fs h k = rw (split_digits fs k) refl
split_with_point (c ∷ ws) fs (h, hs) k =
    let e : (c == b'.') ≡ false = ground arith in rw (e, split_with_point ws fs hs k) refl

abbrev number_of : Bool → ℕ → ℕ → Parsed
number_of negative n scale =
    parsed (normalize (record { value = some (signed negative n); scale = scale }))

parse_digits-Spells :
    (negative : Bool) (n : ℕ) (ws fs : List ℕ)
    → Spells n (ws ++ fs)
    → parse_digits negative ws fs ≡ number_of negative n (length fs)
unfolding parse_digits
parse_digits-Spells negative n ws fs s =
    let e : (length (ws ++ fs) == 0) ≡ false = ground (arith, s.some_digit) in
    rw (e, all_digits-IsDigit (ws ++ fs) s.only_digits, s.reads) refl

-- The sign is read back; behind it stands a digit.
parse_signed :
    (v : ℤ) (c : ℕ) (cs : List ℕ)
    → IsDigit c
    → parse_codes (sign_codes v ++ c ∷ cs) ≡ parse_parts (ltb 0 (neg_part v)) (split_point (c ∷ cs))
unfolding parse_codes sign_codes parse_unsigned
parse_signed (pos n) c cs h =
    let plus : (c == b'+') ≡ false = ground arith in
    let dash : (c == b'-') ≡ false = ground arith in rw (plus, dash) refl
parse_signed (negsuc n) c cs h =
    let e : ltb 0 (suc n) ≡ true = ground arith in rw (e, parse_codes, parse_unsigned) refl

signed-magnitude : (v : ℤ) → signed (ltb 0 (neg_part v)) (magnitude v) ≡ v
signed-magnitude (pos n) = ap pos (omega arith)
signed-magnitude (negsuc n) =
    let e : ltb 0 (suc n) ≡ true = ground arith in
    let k : 0 + suc n ≡ suc n = omega arith in rw (e, k) refl

normalize_again : (d : Decimal) → normalize (normalize d) ≡ normalize d
normalize_again d =
    normalize_unique (normalize d) d d.scale (scale-normalize d) (omega arith)
      (coeff-normalize d d.scale (omega arith))

-- What the parse of a printed number gives, and of what characters the print is.
record Reads (v : ℤ) (scale : ℕ) (text : List ℕ) : Type 0 where
  numeric : All IsNumeric text
  result : parse_codes text ≡ number_of (ltb 0 (neg_part v)) (magnitude v) scale

sign-IsNumeric : (v : ℤ) → All IsNumeric (sign_codes v)
unfolding sign_codes
sign-IsNumeric v = elim (Bool-cases (ltb 0 (neg_part v))) [
  | inl e ↦ rw e (inr (inl refl), tt)
  | inr e ↦ rw e tt
]

digits-IsNumeric : (ds : List ℕ) → All IsDigit ds → All IsNumeric ds
digits-IsNumeric [] h = tt
digits-IsNumeric (c ∷ ds) (h, hs) = (inl h, digits-IsNumeric ds hs)

whole-Reads : (v : ℤ) (ds : List ℕ) → Spells (magnitude v) ds → Reads v 0 (sign_codes v ++ ds)
unfolding parse_parts
whole-Reads v [] s = absurd (omega (arith, s.some_digit))
whole-Reads v (c ∷ ds) s = record {
  numeric =
      All-append IsNumeric (sign_codes v) (c ∷ ds) (sign-IsNumeric v)
        (digits-IsNumeric (c ∷ ds) s.only_digits);
  result =
      parse_signed v c ds s.only_digits.0
      ∙ ap (parse_parts (ltb 0 (neg_part v))) (split_digits (c ∷ ds) s.only_digits)
      ∙ parse_digits-Spells (ltb 0 (neg_part v)) (magnitude v) (c ∷ ds) []
          (subst (Spells (magnitude v)) (sym (append-nil (c ∷ ds))) s);
}

fraction-Reads :
    (v : ℤ) (ws fs : List ℕ)
    → 0 < length ws
    → All IsDigit ws
    → All IsDigit fs
    → Spells (magnitude v) (ws ++ fs)
    → Reads v (length fs) (sign_codes v ++ (ws ++ b'.' ∷ fs))
unfolding parse_parts
fraction-Reads v [] fs h ws_digits fs_digits s = absurd (omega arith)
fraction-Reads v (c ∷ ws) fs h ws_digits fs_digits s = record {
  numeric = All-append IsNumeric (sign_codes v) (c ∷ (ws ++ b'.' ∷ fs)) (sign-IsNumeric v) (
      All-append IsNumeric (c ∷ ws) (b'.' ∷ fs) (digits-IsNumeric (c ∷ ws) ws_digits)
        (inr (inr refl), digits-IsNumeric fs fs_digits));
  result =
      parse_signed v c (ws ++ b'.' ∷ fs) ws_digits.0
      ∙ ap (parse_parts (ltb 0 (neg_part v))) (split_with_point (c ∷ ws) fs ws_digits fs_digits)
      ∙ parse_digits-Spells (ltb 0 (neg_part v)) (magnitude v) (c ∷ ws) fs s;
}

with_point-Reads :
    (v : ℤ) (scale : ℕ) (ds : List ℕ)
    → Spells (magnitude v) ds
    → scale < length ds
    → Reads v scale (sign_codes v ++ with_point scale ds)
unfolding with_point
with_point-Reads v scale ds s h =
    let k = length ds - scale in
    let joined : take k ds ++ drop k ds ≡ ds = take-drop k ds in
    let fraction : length (drop k ds) ≡ scale = omega (arith, length-drop k ds) in
    let whole : 0 < length (take k ds) =
      omega (arith, length-append (take k ds) (drop k ds), ap length joined) in
    subst (λ l. Reads v l (sign_codes v ++ (take k ds ++ b'.' ∷ drop k ds))) fraction
      (fraction-Reads v (take k ds) (drop k ds) whole (All-take IsDigit k ds s.only_digits)
        (All-drop IsDigit k ds s.only_digits) (subst (Spells (magnitude v)) (sym joined) s))

zero_scale : (v : ℤ) (scale : ℕ) → v ≡ pos 0 → (scale ≡ 0) ⊎ (magnitude v % 10 ≢ 0) → scale ≡ 0
zero_scale v scale w (inl e) = e
zero_scale v scale w (inr k) = absurd (k (ap (λ u. magnitude u % 10) w))

zero-Reads : Reads (pos 0) 0 (b'0' ∷ [])
unfolding parse_codes parse_unsigned split_point parse_parts parse_digits all_digits
zero-Reads = record { numeric = (inl (omega arith, omega arith), tt); result = refl }

print_normal-Reads :
    (v : ℤ) (scale : ℕ)
    → (scale ≡ 0) ⊎ (magnitude v % 10 ≢ 0)
    → Reads v scale (print_normal v scale)
unfolding print_normal
print_normal-Reads v scale h = elim (Bool-cases (magnitude v == 0)) [
  | inl z ↦
      let w : v ≡ pos 0 = eq_of_parts v (pos 0) (grind arith) in
      let places : scale ≡ 0 = zero_scale v scale w h in rw (w, places) (zero-Reads)
  | inr nz ↦
      let some : 0 < magnitude v = ground arith in
      elim (Bool-cases (scale == 0)) [
        | inl whole ↦
            let no : scale ≡ 0 = ground arith in
            rw (nz, no) (whole-Reads v _ (print_from-Spells (magnitude v) some))
        | inr fraction ↦
            let (s, k) = padded-Spells scale (magnitude v) some in
            rw (nz, fraction) (with_point-Reads v scale (padded scale (magnitude v)) s k)
      ]
]

-- `Parse` reads what `String` prints as the same number, in the form that `normalize` gives it: no
-- digit, sign or place of the point is lost, also where zeros are printed before the digits.
pub parse-to_string : (d : Decimal) → parse (to_string d) ≡ parsed (normalize d)
unfolding parse to_string
parse-to_string d =
    let d' = normalize d in
    let v = coefficient d' in
    let n = normalize-IsNormal d in
    let r = print_normal-Reads v d'.scale n.1 in
    let text = of_codes (print_normal v d'.scale) in
    let back : codes text ≡ print_normal v d'.scale = codes-of_codes _ r.numeric in
    let spaces : trim_space text ≡ text =
      trim_space-NoSpace text
        (subst (λ cs. All NoSpace cs) (sym back) (numeric-NoSpace _ r.numeric)) in
    let again : normalize d' ≡ normalize d = normalize_again d in
    let whole : record {
      value = some (signed (ltb 0 (neg_part v)) (magnitude v));
      scale = d'.scale;
    }
        ≡ d' =
      (λ i. record { value = (ap some (signed-magnitude v) ∙ sym n.0) i; scale = d'.scale }) in
    ap (λ t. parse_codes (codes t)) spaces
    ∙ ap parse_codes back
    ∙ r.result
    ∙ ap (λ e. parsed (normalize e)) whole
    ∙ ap parsed again
