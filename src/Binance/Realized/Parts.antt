-- ===== src/Binance/Realized/Parts.antt =====
-- `RealizedTrade` of internal/exchange/binance/executor.go: the parts of fills that its sums are made of.
use mathlib.Core.List.{Memᴰ}
use joinanny.Base.{
  String, ◌≡◌, refl, subst, ◌⊎◌, inl, inr, Option, none, some, List, [], ◌∷◌, All, Bool-cases,
}
use joinanny.Decimal.{Decimal, is_positive, is_gt, cmp, abs, add, sub, mul, quo_floor}
use joinanny.Binance.{Error, UserTradeRow}
use joinanny.Binance.Exec.{Result, ok, err, ok_injective, Result-cases}
use joinanny.Binance.Filters.{of_exact}
use joinanny.Binance.Realized.{
  FillSums, Fill, Part, read_fill, part_of, include, go_on, count_fill, sum_fills,
}

-- All of a fill, or a share of it: its result and its commission by the ratio of the quantities,
-- rounded to 16 places.
abbrev pub IsPart : Fill → Part → Type 0
IsPart f p =
    ((p.qty ≡ f.qty) × (p.pnl ≡ f.pnl) × (p.commission ≡ abs f.commission))
    ⊎ ((ratio : Decimal) × (of_exact (quo_floor p.qty f.qty 16) ≡ ok ratio)
        × (p.pnl ≡ mul f.pnl ratio)
        × (p.commission ≡ mul (abs f.commission) ratio))

-- The sums behind parts: the results less the commissions, the quantities, the values at the prices.
abbrev pub net_from : Decimal → List (Fill × Part) → Decimal
net_from d [] = d
net_from d ((f, p) ∷ parts) = net_from (sub (add d p.pnl) p.commission) parts

abbrev pub qty_from : Decimal → List (Fill × Part) → Decimal
qty_from d [] = d
qty_from d ((f, p) ∷ parts) = qty_from (add d p.qty) parts

abbrev pub notional_from : Decimal → List (Fill × Part) → Decimal
notional_from d [] = d
notional_from d ((f, p) ∷ parts) = notional_from (add d (mul f.price p.qty)) parts

-- A part of a fill that one of the rows is read as.
abbrev pub FromRow : String → String → List UserTradeRow → Fill × Part → Type 0
FromRow symbol side rows (f, p) =
    (row : UserTradeRow) × Memᴰ row rows × (read_fill symbol side row ≡ ok (some f)) × IsPart f p

-- The later sums are the earlier ones with parts of the rows.
pub record Parts (symbol side : String) (rows : List UserTradeRow) (s s' : FillSums) : Type 0 where
  pub parts : List (Fill × Part)
  pub from : All (FromRow symbol side rows) parts
  pub net : s'.net ≡ net_from s.net parts
  pub qty : s'.qty_sum ≡ qty_from s.qty_sum parts
  pub notional : s'.notional_sum ≡ notional_from s.notional_sum parts

part_of-IsPart : (f : Fill) (r : Decimal) (p : Part) → part_of f r ≡ ok p → IsPart f p
unfolding part_of
part_of-IsPart f r p h = elim (Bool-cases (is_gt (cmp f.qty r))) [
  | inl more ↦ elim (Result-cases (of_exact (quo_floor r f.qty 16))) [
    | inl (ratio, e) ↦
        let k : ok _ ≡ ok p = rw (more, e) at h in
        subst (IsPart f) (ok_injective _ p k) (inr (ratio, e, refl, refl))
    | inr (x, e) ↦ let k : err x ≡ ok p = rw (more, e) at h in cc
  ]
  | inr within ↦
      let k : ok _ ≡ ok p = rw within at h in
      subst (IsPart f) (ok_injective _ p k) (inl (refl, refl, refl))
]

module _ (symbol side : String) (row : UserTradeRow) (rows : List UserTradeRow) where
  FromRow-tail :
      (parts : List (Fill × Part))
      → All (FromRow symbol side rows) parts
      → All (FromRow symbol side (row ∷ rows)) parts
  FromRow-tail [] h = tt
  FromRow-tail ((f, p) ∷ parts) ((r, m, e, part), hs) =
      ((r, Memᴰ.tail m, e, part), FromRow-tail parts hs)

  Parts-tail : (s s' : FillSums) → Parts symbol side rows s s' → Parts symbol side (row ∷ rows) s s'
  Parts-tail s s' h = record {
    parts = h.parts;
    from = FromRow-tail h.parts h.from;
    net = h.net;
    qty = h.qty;
    notional = h.notional;
  }

  module _ (f : Fill) (p : Part) (read : read_fill symbol side row ≡ ok (some f))
      (part : IsPart f p) where
    Parts-cons :
        (s s' : FillSums)
        → Parts symbol side rows (include f p s) s'
        → Parts symbol side (row ∷ rows) s s'
    unfolding include
    Parts-cons s s' h = record {
      parts = (f, p) ∷ h.parts;
      from = ((row, Memᴰ.head refl, read, part), FromRow-tail h.parts h.from);
      net = h.net;
      qty = h.qty;
      notional = h.notional;
    }

    go_on-Parts :
        (again : FillSums → Result Error FillSums) (s s' : FillSums)
        → ((t t' : FillSums) → again t ≡ ok t' → Parts symbol side rows t t')
        → go_on again (include f p s) ≡ ok s'
        → Parts symbol side (row ∷ rows) s s'
    unfolding go_on
    go_on-Parts again s s' rest h = elim (Bool-cases (is_positive (include f p s).remaining)) [
      | inl more ↦
          let h' : again (include f p s) ≡ ok s' = rw (more, go_on) at h in
          Parts-cons s s' (rest (include f p s) s' h')
      | inr done ↦
          let h' : ok (include f p s) ≡ ok s' = rw (done, go_on) at h in
          Parts-cons s s' (
            subst (Parts symbol side rows (include f p s)) (ok_injective (include f p s) s' h')
              (record { parts = []; from = tt; net = refl; qty = refl; notional = refl }))
    ]

  count_fill-Parts :
      (again : FillSums → Result Error FillSums) (o : Option Fill) (s s' : FillSums)
      → ((t t' : FillSums) → again t ≡ ok t' → Parts symbol side rows t t')
      → read_fill symbol side row ≡ ok o
      → count_fill again o s ≡ ok s'
      → Parts symbol side (row ∷ rows) s s'
  unfolding count_fill
  count_fill-Parts again none s s' rest read h = Parts-tail s s' (rest s s' h)
  count_fill-Parts again (some f) s s' rest read h = elim (Result-cases (part_of f s.remaining)) [
    | inr (x, k) ↦ let refusal : err x ≡ ok s' = rw (k, count_fill) at h in cc
    | inl (p, k) ↦
        let h' : go_on again (include f p s) ≡ ok s' = rw (k, count_fill) at h in
        go_on-Parts f p read (part_of-IsPart f s.remaining p k) again s s' rest h'
  ]

pub sum_fills-Parts :
    (symbol side : String) (rows : List UserTradeRow) (s s' : FillSums)
    → sum_fills symbol side rows s ≡ ok s'
    → Parts symbol side rows s s'
unfolding sum_fills
sum_fills-Parts symbol side [] s s' h =
    subst (Parts symbol side [] s) (ok_injective s s' h)
      (record { parts = []; from = tt; net = refl; qty = refl; notional = refl })
sum_fills-Parts symbol side (row ∷ rows) s s' h = elim (Result-cases (read_fill symbol side row)) [
  | inr (x, e) ↦ let refusal : err x ≡ ok s' = rw (e, sum_fills) at h in cc
  | inl (o, e) ↦
      let h' : count_fill (sum_fills symbol side rows) o s ≡ ok s' = rw (e, sum_fills) at h in
      count_fill-Parts symbol side row rows (sum_fills symbol side rows) o s s'
        (λ t t' k. sum_fills-Parts symbol side rows t t' k) e h'
]
