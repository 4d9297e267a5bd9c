-- ===== src/Binance/Realized/Loop.antt =====
-- `RealizedTrade` of internal/exchange/binance/executor.go: the sums of its loop.
use joinanny.Base.{
  ℕ, ◌+◌, ◌-◌, ◌^◌, ◌≤◌, String, ◌≡◌, refl, sym, ap, ◌∙◌, subst, inl, inr, true, false, Option,
  none, some, List, [], ◌∷◌, arith, Bool-cases,
}
use joinanny.Base.Int.{
  ℤ, pos, pos_part, neg_part, ◌+ℤ◌, ◌-ℤ◌, ◌*ℤ◌, *ℤ-pos_parts, +ℤ_parts, -ℤ_parts, eq_of_parts,
}
use joinanny.Decimal.{
  Decimal, decimal_zero, normalize, sign, sign_ℤ, cmp, cmp_ℤ, is_positive, is_gt, is_lt, add, sub,
  quo_floor,
}
use joinanny.Decimal.Scale.{coeff_at, cmp-coeff}
use joinanny.Decimal.Arithmetic.{coeff-add, coeff-sub, scale-add, scale-sub}
use joinanny.Decimal.Division.{sign-coeff_at}
use joinanny.Decimal.Normal.{normalize_unique}
use joinanny.Binance.{Error, UserTradeRow}
use joinanny.Binance.Exec.{Result, ok, err, ok_injective, Result-cases}
use joinanny.Binance.Filters.{of_exact}
use joinanny.Binance.Realized.{
  FillSums, Fill, Part, read_fill, part_of, include, go_on, count_fill, sum_fills, no_fills,
}

-- The quantity counted and the one that remains make up the entry, and neither is taken too far.
pub record Covers (entry : Decimal) (s : FillSums) : Type 0 where
  pub split : normalize (add s.qty_sum s.remaining) ≡ normalize entry
  pub not_below : is_lt (sign s.remaining) ≡ false

int_move : (a b p : ℤ) → a +ℤ p +ℤ (b -ℤ p) ≡ a +ℤ b
int_move a b p =
    eq_of_parts _ _
      (ground (arith, +ℤ_parts a p, +ℤ_parts (a +ℤ p) (b -ℤ p), -ℤ_parts b p, +ℤ_parts a b))

not_above : (a b : ℤ) → is_gt (cmp_ℤ b a) ≡ false → is_lt (sign_ℤ (a -ℤ b)) ≡ false
not_above a b h = ground (arith, -ℤ_parts a b)

-- Moving an amount from one sum to the other.
add-sub_same : (a b p : Decimal) → normalize (add (add a p) (sub b p)) ≡ normalize (add a b)
add-sub_same a b p =
    let n = a.scale + b.scale + p.scale in
    let ha : a.scale ≤ n = omega arith in
    let hb : b.scale ≤ n = omega arith in
    let hp : p.scale ≤ n = omega arith in
    let left = scale-add a p n ha hp in
    let right = scale-sub b p n hb hp in
    normalize_unique (add (add a p) (sub b p)) (add a b) n
      (scale-add (add a p) (sub b p) n left right) (scale-add a b n ha hb)
      (coeff-add (add a p) (sub b p) n left right
        ∙ (λ i. coeff-add a p n ha hp i +ℤ coeff-sub b p n hb hp i)
        ∙ int_move (coeff_at n a) (coeff_at n b) (coeff_at n p)
        ∙ sym (coeff-add a b n ha hb))

-- What is taken is not more than what is there.
sub_not_below : (a b : Decimal) → is_gt (cmp b a) ≡ false → is_lt (sign (sub a b)) ≡ false
sub_not_below a b h =
    let n = a.scale + b.scale in
    let ha : a.scale ≤ n = omega arith in
    let hb : b.scale ≤ n = omega arith in
    let c : cmp b a ≡ cmp_ℤ (coeff_at n b) (coeff_at n a) = cmp-coeff b a n hb ha in
    let d : sign_ℤ (coeff_at n a -ℤ coeff_at n b) ≡ sign (sub a b) =
      ap sign_ℤ (sym (coeff-sub a b n ha hb)) ∙ sign-coeff_at (sub a b) n in
    ap is_lt (sym d) ∙ not_above (coeff_at n a) (coeff_at n b) (ap is_gt (sym c) ∙ h)

not_above_self : (r : Decimal) → is_gt (cmp r r) ≡ false
not_above_self r =
    let c : cmp r r ≡ cmp_ℤ (coeff_at r.scale r) (coeff_at r.scale r) =
      cmp-coeff r r r.scale (omega arith) (omega arith) in
    ap is_gt c ∙ ground arith

part_within : (f : Fill) (r : Decimal) (p : Part) → part_of f r ≡ ok p → is_gt (cmp p.qty r) ≡ false
unfolding part_of
part_within f r p h = elim (Bool-cases (is_gt (cmp f.qty r))) [
  | inl more ↦ elim (Result-cases (of_exact (quo_floor r f.qty 16))) [
    | inl (ratio, e) ↦
        let k : ok _ ≡ ok p = rw (more, e) at h in
        ap (λ q. is_gt (cmp q r)) (sym (ap (λ t. t.qty) (ok_injective _ p k))) ∙ not_above_self r
    | inr (x, e) ↦ let k : err x ≡ ok p = rw (more, e) at h in cc
  ]
  | inr within ↦
      let k : ok _ ≡ ok p = rw within at h in
      ap (λ q. is_gt (cmp q r)) (sym (ap (λ t. t.qty) (ok_injective _ p k))) ∙ within
]

include-Covers :
    (entry : Decimal) (f : Fill) (p : Part) (s : FillSums)
    → part_of f s.remaining ≡ ok p
    → Covers entry s
    → Covers entry (include f p s)
unfolding include
include-Covers entry f p s h c = record {
  split = add-sub_same s.qty_sum s.remaining p.qty ∙ c.split;
  not_below = sub_not_below s.remaining p.qty (part_within f s.remaining p h);
}

go_on-Covers :
    (entry : Decimal) (again : FillSums → Result Error FillSums) (s s' : FillSums)
    → ((t t' : FillSums) → Covers entry t → again t ≡ ok t' → Covers entry t')
    → Covers entry s
    → go_on again s ≡ ok s'
    → Covers entry s'
unfolding go_on
go_on-Covers entry again s s' keep c h = elim (Bool-cases (is_positive s.remaining)) [
  | inl more ↦ let h' : again s ≡ ok s' = rw (more, go_on) at h in keep s s' c h'
  | inr done ↦
      let h' : ok s ≡ ok s' = rw (done, go_on) at h in subst (Covers entry) (ok_injective s s' h') c
]

count_fill-Covers :
    (entry : Decimal) (again : FillSums → Result Error FillSums) (o : Option Fill) (s s' : FillSums)
    → ((t t' : FillSums) → Covers entry t → again t ≡ ok t' → Covers entry t')
    → Covers entry s
    → count_fill again o s ≡ ok s'
    → Covers entry s'
unfolding count_fill
count_fill-Covers entry again none s s' keep c h = keep s s' c h
count_fill-Covers entry again (some f) s s' keep c h = elim (Result-cases (part_of f s.remaining)) [
  | inr (x, k) ↦ let refusal : err x ≡ ok s' = rw (k, count_fill) at h in cc
  | inl (p, k) ↦
      let h' : go_on again (include f p s) ≡ ok s' = rw (k, count_fill) at h in
      go_on-Covers entry again (include f p s) s' keep (include-Covers entry f p s k c) h'
]

pub sum_fills-Covers :
    (symbol side : String) (entry : Decimal) (rows : List UserTradeRow) (s s' : FillSums)
    → Covers entry s
    → sum_fills symbol side rows s ≡ ok s'
    → Covers entry s'
unfolding sum_fills
sum_fills-Covers symbol side entry [] s s' c h = subst (Covers entry) (ok_injective s s' h) c
sum_fills-Covers symbol side entry (row ∷ rows) s s' c h =
    elim (Result-cases (read_fill symbol side row)) [
      | inr (x, e) ↦ let refusal : err x ≡ ok s' = rw (e, sum_fills) at h in cc
      | inl (o, e) ↦
          let h' : count_fill (sum_fills symbol side rows) o s ≡ ok s' = rw (e, sum_fills) at h in
          count_fill-Covers entry (sum_fills symbol side rows) o s s'
            (λ t t' d k. sum_fills-Covers symbol side entry rows t t' d k) c h'
    ]

zero_before : (z a : ℤ) (k : ℕ) → pos_part z ≡ 0 → neg_part z ≡ 0 → z *ℤ pos k +ℤ a ≡ a
zero_before z a k p q = eq_of_parts _ _ (grind (arith, *ℤ-pos_parts z k, +ℤ_parts (z *ℤ pos k) a))

zero_behind : (a b : ℤ) → is_gt (sign_ℤ b) ≡ false → is_lt (sign_ℤ b) ≡ false → a +ℤ b ≡ a
zero_behind a b h k = eq_of_parts _ _ (ground (arith, +ℤ_parts a b))

pub no_fills-Covers : (entry : Decimal) → is_positive entry ≡ true → Covers entry (no_fills entry)
unfolding is_positive
no_fills-Covers entry h = record {
  split =
      let n = entry.scale in
      let fits : n ≤ n = omega arith in
      let low : 0 ≤ n = omega arith in
      normalize_unique (add decimal_zero entry) entry n (scale-add decimal_zero entry n low fits)
        fits
        (coeff-add decimal_zero entry n low fits
          ∙ zero_before (pos 0) (coeff_at n entry) (10 ^ (n - 0)) refl refl);
  not_below = ground (arith, h);
}

-- Nothing remains, so all of the entry is counted.
pub all_counted :
    (entry : Decimal) (s : FillSums)
    → Covers entry s
    → is_positive s.remaining ≡ false
    → normalize s.qty_sum ≡ normalize entry
unfolding is_positive
all_counted entry s c h =
    let n = s.qty_sum.scale + s.remaining.scale in
    let p : s.qty_sum.scale ≤ n = omega arith in
    let q : s.remaining.scale ≤ n = omega arith in
    let same : sign_ℤ (coeff_at n s.remaining) ≡ sign s.remaining = sign-coeff_at s.remaining n in
    normalize_unique s.qty_sum (add s.qty_sum s.remaining) n p
      (scale-add s.qty_sum s.remaining n p q)
      (sym (
        coeff-add s.qty_sum s.remaining n p q
        ∙ zero_behind (coeff_at n s.qty_sum) (coeff_at n s.remaining) (ap is_gt same ∙ h)
            (ap is_lt same ∙ c.not_below)))
    ∙ c.split
