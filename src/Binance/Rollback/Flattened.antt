-- ===== src/Binance/Rollback/Flattened.antt =====
-- `flattenPosition` of internal/exchange/binance/executor.go: which orders it places.
use mathlib.Core.List.{Memᴰ}
use text.Mathlib.Text.{◌==◌ as str_eq}
use text.Mathlib.TextEquality.{eq_iff}
use joinanny.Base.{
  String, ◌≡◌, refl, sym, ap, ◌∙◌, subst, ◌⊎◌, inl, inr, Option, none, some, false, List, [], ◌∷◌,
  Bool-cases,
}
use joinanny.Decimal.{Decimal, abs, is_zero, floor_to_step}
use joinanny.Binance.{
  Method, Sent, Error, PositionRisk, SymbolFilters, ExecutorConfig, Network, ExecutorState,
}
use joinanny.Binance.Exec.{Result, ok, pure, ◌>>◌, >>=-rule, Result-cases}
use joinanny.Binance.Request.{
  Action, accepted_of, order_call, position_call, new_order, position_risk,
}
use joinanny.Binance.Filters.{of_exact, parse_number, symbol_filters, exchange_info_call}
use joinanny.Binance.Quantity.Rounding.{Rounded, floor_to_step-Rounded}
use joinanny.Binance.Rollback.{
  reduce_params, held_amount, whole_steps, flatten_amount, flatten_row, flatten_rows,
  flatten_position,
}
use joinanny.Binance.Sending.{
  Reached, new_order-calls, position_risk-calls, Grown, Grown-self, Grown-one, Grown-trans,
  symbol_filters-Grown,
}

-- A market order that can only make a position of the symbol smaller, for a row of the answer: the
-- row is the symbol's, its amount is not 0, and the quantity is the amount without its sign, rounded
-- down to the step size that `symbolFilters` gave for the symbol in a state behind the question, and
-- not 0.
pub record FlattenOrder (net : Network) (cfg : ExecutorConfig) (symbol id : String)
    (at : ExecutorState net.World) (c : Sent) : Type 0 where
  pub rows : List PositionRisk
  pub answered : (position_risk net symbol at).0 ≡ ok rows
  pub row : PositionRisk
  pub reported : Memᴰ row rows
  pub own : row.symbol ≡ symbol
  pub amount : Decimal
  pub reads : parse_number row.position_amt ≡ ok amount
  pub holds : is_zero amount ≡ false
  pub filters : SymbolFilters
  pub asked_at : ExecutorState net.World
  pub reached : Reached net cfg at asked_at
  pub filtered : (symbol_filters net cfg symbol asked_at).0 ≡ ok filters
  pub quantity : Decimal
  pub rounded : Rounded (abs amount) filters.step_size quantity
  pub some_quantity : is_zero quantity ≡ false
  pub call : c.call ≡ order_call Method.post (reduce_params symbol amount quantity id)

-- A question about the filters, or such an order.
abbrev pub Flattens :
    (net : Network) → ExecutorConfig → String → String → ExecutorState net.World → Sent → Type 0
Flattens net cfg symbol id at c =
    (c.call ≡ exchange_info_call) ⊎ FlattenOrder net cfg symbol id at c

held_amount-some :
    (symbol : String) (row : PositionRisk) (amount : Decimal)
    → held_amount symbol row ≡ some amount
    → (row.symbol ≡ symbol) × (parse_number row.position_amt ≡ ok amount) × (is_zero amount ≡ false)
unfolding held_amount
held_amount-some symbol row amount h = elim (Bool-cases (str_eq row.symbol symbol)) [
  | inr other ↦ let k : none ≡ some amount = rw (other, held_amount) at h in cc
  | inl own ↦ elim (Result-cases (parse_number row.position_amt)) [
    | inr (e, k) ↦ let q : none ≡ some amount = rw (own, held_amount, k) at h in cc
    | inl (a, k) ↦ elim (Bool-cases (is_zero a)) [
      | inl flat ↦ let q : none ≡ some amount = rw (own, held_amount, k, flat) at h in cc
      | inr held ↦
          let q : some a ≡ some amount = rw (own, held_amount, k, held) at h in
          let same : a ≡ amount = cc in
          (
            (eq_iff row.symbol symbol).0 own,
            k ∙ ap ok same,
            subst (λ u. is_zero u ≡ false) same held,
          )
    ]
  ]
]

whole_steps-some :
    (amount step quantity : Decimal)
    → whole_steps amount step ≡ some quantity
    → Rounded (abs amount) step quantity × (is_zero quantity ≡ false)
unfolding whole_steps
whole_steps-some amount step quantity h =
    elim (Result-cases (of_exact (floor_to_step (abs amount) step))) [
      | inr (e, k) ↦ let q : none ≡ some quantity = rw (k, whole_steps) at h in cc
      | inl (a, k) ↦ elim (Bool-cases (is_zero a)) [
        | inl nothing ↦ let q : none ≡ some quantity = rw (k, whole_steps, nothing) at h in cc
        | inr more ↦
            let q : some a ≡ some quantity = rw (k, whole_steps, more) at h in
            let same : a ≡ quantity = cc in
            (
              subst (Rounded (abs amount) step) same (floor_to_step-Rounded (abs amount) step a k),
              subst (λ u. is_zero u ≡ false) same more,
            )
      ]
    ]

module _ (net : Network) (cfg : ExecutorConfig) (symbol id : String)
    (at : ExecutorState net.World) where
  -- Only such calls are added, and the state is one that they lead to.
  abbrev Added : List Sent → ExecutorState net.World → Type 0
  Added before t = Grown (Flattens net cfg symbol id at) before t.calls × Reached net cfg at t

  abbrev More : List Sent → {A : Type 0} → Result Error A × ExecutorState net.World → Type 0
  More before r = Added before r.1

  More-trans :
      (before : List Sent) (t u : ExecutorState net.World)
      → Added before t
      → Added t.calls u
      → Added before u
  More-trans before t u (g, _) (h, reach) = (Grown-trans _ _ _ _ g h, reach)

  module _ (rows : List PositionRisk) (answered : (position_risk net symbol at).0 ≡ ok rows) where
    module _ (row : PositionRisk) (reported : Memᴰ row rows) where
      module _ (amount : Decimal) (held : held_amount symbol row ≡ some amount) where
        reduce-More :
            (filters : SymbolFilters) (asked_at s : ExecutorState net.World) (o : Option Decimal)
            → Reached net cfg at asked_at
            → (symbol_filters net cfg symbol asked_at).0 ≡ ok filters
            → whole_steps amount filters.step_size ≡ o
            → Reached net cfg at s
            → More s.calls (
                elim o as (λ _. Action net (Unit {0})) [
                  | none ↦ pure tt
                  | some quantity ↦
                      new_order net (reduce_params symbol amount quantity id) >> pure tt
                ]
                  s)
        reduce-More filters asked_at s none before f h reach = (Grown-self _ s.calls, reach)
        reduce-More filters asked_at s (some quantity) before f h reach =
            let (own, reads, holds) = held_amount-some symbol row amount held in
            let (rounds, more) = whole_steps-some amount filters.step_size quantity h in
            let params = reduce_params symbol amount quantity id in
            let one : More s.calls (new_order net params s) = (
              subst (λ calls. Grown (Flattens net cfg symbol id at) s.calls calls)
                  (sym (new_order-calls net params s))
                  (Grown-one _ _ s.calls (
                    inr (record {
                      rows = rows;
                      answered = answered;
                      row = row;
                      reported = reported;
                      own = own;
                      amount = amount;
                      reads = reads;
                      holds = holds;
                      filters = filters;
                      asked_at = asked_at;
                      reached = before;
                      filtered = f;
                      quantity = quantity;
                      rounded = rounds;
                      some_quantity = more;
                      call = refl;
                    }))),
              Reached.ordered params reach,
            ) in
            >>=-rule (More s.calls) (new_order net params) (λ _. pure tt) s (λ e k. one)
              (λ r k. one)

        flatten_amount-More :
            (s : ExecutorState net.World)
            → Reached net cfg at s
            → More s.calls (flatten_amount net cfg symbol id amount s)
        unfolding flatten_amount
        flatten_amount-More s reach =
            let g : More s.calls (symbol_filters net cfg symbol s) = (
              symbol_filters-Grown net cfg (Flattens net cfg symbol id at) symbol s (λ _. inl refl),
              Reached.filtered symbol reach,
            ) in
            >>=-rule (More s.calls) (symbol_filters net cfg symbol)
              (λ filters.
                elim (whole_steps amount filters.step_size) as (λ _. Action net (Unit {0})) [
                  | none ↦ pure tt
                  | some quantity ↦
                      new_order net (reduce_params symbol amount quantity id) >> pure tt
                ])
              s (λ e h. g)
              (λ filters h.
                More-trans s.calls (symbol_filters net cfg symbol s).1 _ g
                  (reduce-More filters s _ (whole_steps amount filters.step_size) reach h refl g.1))

      flatten_held-More :
          (o : Option Decimal) (s : ExecutorState net.World)
          → held_amount symbol row ≡ o
          → Reached net cfg at s
          → More s.calls (
              elim o as (λ _. Action net (Unit {0})) [
                | none ↦ pure tt
                | some amount ↦ flatten_amount net cfg symbol id amount
              ]
                s)
      flatten_held-More none s h reach = (Grown-self _ s.calls, reach)
      flatten_held-More (some amount) s h reach = flatten_amount-More amount h s reach

    flatten_rows-More :
        (more : List PositionRisk) (s : ExecutorState net.World)
        → ((row : PositionRisk) → Memᴰ row more → Memᴰ row rows)
        → Reached net cfg at s
        → More s.calls (flatten_rows net cfg symbol id more s)
    unfolding flatten_rows flatten_row
    flatten_rows-More [] s among reach = (Grown-self _ s.calls, reach)
    flatten_rows-More (row ∷ more) s among reach =
        let m = flatten_row net cfg symbol id row in
        let g : More s.calls (m s) =
          flatten_held-More row (among row (Memᴰ.head refl)) (held_amount symbol row) s refl
            reach in
        >>=-rule (More s.calls) m (λ _. flatten_rows net cfg symbol id more) s (λ e k. g)
          (λ _ k.
            More-trans s.calls (m s).1 _ g
              (flatten_rows-More more _ (λ r i. among r (Memᴰ.tail i)) g.1))

  pub flatten_position-More :
      let answer = (position_risk net symbol at).0 in
      Grown
        (Flattens net cfg symbol id at)
        (record { call = position_call symbol; accepted = accepted_of net answer } ∷ at.calls)
        (flatten_position net cfg symbol id at).1.calls
  unfolding flatten_position
  flatten_position-More =
      let m = position_risk net symbol in
      subst
        (λ calls.
          Grown (Flattens net cfg symbol id at) calls
            (flatten_position net cfg symbol id at).1.calls)
        (position_risk-calls net symbol at)
        (>>=-rule (More (m at).1.calls) m (flatten_rows net cfg symbol id) at
          (λ e h. (Grown-self _ _, Reached.positioned symbol Reached.started))
          (λ rows h.
            flatten_rows-More rows h rows _ (λ r i. i)
              (Reached.positioned symbol Reached.started))).0
