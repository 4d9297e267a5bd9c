-- ===== src/Binance/Opening/Outcome.antt =====
-- `executeOpen` of internal/exchange/binance/executor.go: what each way to end has asked of the
-- exchange.
use text.Mathlib.Text.{◌==◌ as str_eq}
use joinanny.Base.{
  String, ◌≡◌, refl, sym, ap, ◌∙◌, subst, ◌⊎◌, inl, inr, ◌||◌, true, false, some, List, ◌∷◌,
}
use joinanny.Decimal.{Decimal}
use joinanny.Domain.{OpenIntent}
use joinanny.Binance.{
  Method, Call, Sent, Error, OrderResponse, AlgoOrderResponse, SymbolFilters, ExecutorConfig,
  Network, ExecutorState,
}
use joinanny.Binance.Exec.{Result, ok, err, lift, ◌>>◌, ◌>>=◌, >>=-ok, >>=-err, >>=-rule}
use joinanny.Binance.Request.{send, algo_call, change_margin_type, change_leverage}
use joinanny.Binance.Filters.{symbol_filters}
use joinanny.Binance.Quantity.{client_order_id, order_sides}
use joinanny.Binance.Entry.{maker_first_entry}
use joinanny.Binance.Opening.{
  trigger_params, OpenPlan, Opened, plan_open, protect_or_undo, opened, take_profit_behind, protect,
  open_planned, open_with_filters, open_position, open_with, execute_open,
}
use joinanny.Binance.Opening.Leg.{protect_or_undo-Leg}
use joinanny.Binance.Rollback.Undone.{Undone}
use joinanny.Binance.Sending.{Grown, Grown-one, Grown-trans, symbol_filters-Grown}

-- A call that neither places nor cancels an order.
abbrev pub NoOrder : Sent → Type 0
NoOrder c = (str_eq c.call.path "/fapi/v1/order" || str_eq c.call.path "/fapi/v1/algoOrder") ≡ false

abbrev pub stop_call : OpenIntent → String → OpenPlan → Call
stop_call intent id plan = algo_call Method.post (
    trigger_params intent.symbol (order_sides intent.side).1 "STOP_MARKET" plan.stop_loss
      (client_order_id id "sl"))

abbrev pub take_profit_call : OpenIntent → String → OpenPlan → Call
take_profit_call intent id plan = algo_call Method.post (
    trigger_params intent.symbol (order_sides intent.side).1 "TAKE_PROFIT_MARKET" plan.take_profit
      (client_order_id id "tp"))

-- How an opening ends behind the entry, at the calls made before: with both protecting orders, with
-- the stop refused and the opening undone, or with the take profit refused and it undone.
pub record Guarded (net : Network) (cfg : ExecutorConfig) (intent : OpenIntent) (id : String)
    (plan : OpenPlan) (before : List Sent) (r : Result Error Opened × ExecutorState net.World)
    : Type 0 where
  pub outcome :
      ((o : Opened) × (r.0 ≡ ok o)
        × (o.quantity ≡ plan.quantity)
        × (r.1.calls
            ≡ record { call = take_profit_call intent id plan; accepted = true }
              ∷ record { call = stop_call intent id plan; accepted = true }
              ∷ before))
      ⊎ ((e : Error) × (r.0 ≡ err e)
          × (Undone net cfg intent.symbol id false
                (record { call = stop_call intent id plan; accepted = false } ∷ before)
                r.1.calls
              ⊎ Undone net cfg intent.symbol id true
                  (record { call = take_profit_call intent id plan; accepted = false }
                    ∷ record { call = stop_call intent id plan; accepted = true }
                    ∷ before)
                  r.1.calls))

-- How an opening ends behind its checks, which have placed and cancelled nothing.
pub record Entered (net : Network) (cfg : ExecutorConfig) (intent : OpenIntent) (target : Decimal)
    (id : String) (before : List Sent) (r : Result Error Opened × ExecutorState net.World)
    : Type 0 where
  pub filters : SymbolFilters
  pub plan : OpenPlan
  pub planned : plan_open intent target filters ≡ ok plan
  pub at : ExecutorState net.World
  pub quiet : Grown NoOrder before at.calls
  pub rest :
      let entry =
        maker_first_entry net cfg.maker_entry_timeout intent.symbol
          (order_sides intent.side).0
          plan.entry
          plan.quantity
          id
          at in
      ((e : Error) × (entry.0 ≡ err e) × (r ≡ (err e, entry.1)))
      ⊎ ((o : OrderResponse) × (entry.0 ≡ ok o) × Guarded net cfg intent id plan entry.1.calls r)

abbrev pub Ended :
    (net : Network) (cfg : ExecutorConfig) (intent : OpenIntent) (target : Decimal) (id : String)
    → List Sent
    → Result Error Opened × ExecutorState net.World
    → Type 0
Ended net cfg intent target id before r =
    ((e : Error) × (r.0 ≡ err e) × Grown NoOrder before r.1.calls)
    ⊎ Entered net cfg intent target id before r

module _ (net : Network) (cfg : ExecutorConfig) where
  take_profit_behind-Guarded :
      (intent : OpenIntent) (id : String) (plan : OpenPlan) (o : OrderResponse)
      → (stop : AlgoOrderResponse) (before : List Sent) (s : ExecutorState net.World)
      → s.calls ≡ record { call = stop_call intent id plan; accepted = true } ∷ before
      → Guarded net cfg intent id plan before (take_profit_behind net cfg intent id plan o stop s)
  unfolding take_profit_behind opened
  take_profit_behind-Guarded intent id plan o stop before s e =
      let params = take_profit_call intent id plan in
      let m = protect_or_undo net cfg intent.symbol id true params.params in
      let P = Guarded net cfg intent id plan before in
      elim (protect_or_undo-Leg net cfg intent.symbol id true params.params s).outcome [
        | inl (response, h, k) ↦ subst P (sym (>>=-ok m (opened net cfg plan o stop) s h)) (record {
          outcome =
              inl (_, refl, refl, k ∙ ap (λ l. record { call = params; accepted = true } ∷ l) e);
        })
        | inr (x, h, undone) ↦ subst P (sym (>>=-err m (opened net cfg plan o stop) s h)) (record {
          outcome = inr (
            x,
            refl,
            inr (
                subst
                  (λ l.
                    Undone net cfg intent.symbol id true
                      (record { call = params; accepted = false } ∷ l) (m s).1.calls)
                  e undone),
          );
        })
      ]

  protect-Guarded :
      (intent : OpenIntent) (id : String) (plan : OpenPlan) (o : OrderResponse)
      (s : ExecutorState net.World)
      → Guarded net cfg intent id plan s.calls (protect net cfg intent id plan o s)
  unfolding protect
  protect-Guarded intent id plan o s =
      let params = (stop_call intent id plan).params in
      let m = protect_or_undo net cfg intent.symbol id false params in
      let P = Guarded net cfg intent id plan s.calls in
      let f = take_profit_behind net cfg intent id plan o in
      elim (protect_or_undo-Leg net cfg intent.symbol id false params s).outcome [
        | inl (response, h, k) ↦
            subst P (sym (>>=-ok m f s h))
              (take_profit_behind-Guarded intent id plan o response s.calls _ k)
        | inr (x, h, undone) ↦
            subst P (sym (>>=-err m f s h)) (record { outcome = inr (x, refl, inl undone) })
      ]

  entry_then-Entered :
      (intent : OpenIntent) (target : Decimal) (id : String) (filters : SymbolFilters)
      → (plan : OpenPlan) (before : List Sent) (s : ExecutorState net.World)
      → plan_open intent target filters ≡ ok plan
      → Grown NoOrder before s.calls
      → let entry =
          maker_first_entry net cfg.maker_entry_timeout intent.symbol
            (order_sides intent.side).0
            plan.entry
            plan.quantity
            id in
        Entered net cfg intent target id before ((entry >>= protect net cfg intent id plan) s)
  entry_then-Entered intent target id filters plan before s h g =
      let entry =
        maker_first_entry net cfg.maker_entry_timeout intent.symbol (order_sides intent.side).0
          plan.entry plan.quantity id in
      let P = Entered net cfg intent target id before in
      let f = protect net cfg intent id plan in
      >>=-rule P entry f s
        (λ e k. record {
          filters = filters;
          plan = plan;
          planned = h;
          at = s;
          quiet = g;
          rest = inl (e, k, refl);
        })
        (λ o k. record {
          filters = filters;
          plan = plan;
          planned = h;
          at = s;
          quiet = g;
          rest = inr (o, k, protect-Guarded intent id plan o _);
        })

  open_planned-Ended :
      (intent : OpenIntent) (target : Decimal) (id : String) (filters : SymbolFilters)
      → (plan : OpenPlan) (before : List Sent) (s : ExecutorState net.World)
      → plan_open intent target filters ≡ ok plan
      → Grown NoOrder before s.calls
      → Ended net cfg intent target id before (open_planned net cfg intent id plan s)
  unfolding open_planned change_margin_type change_leverage send
  open_planned-Ended intent target id filters plan before s h g =
      let P = Ended net cfg intent target id before in
      let margin = change_margin_type net intent.symbol "ISOLATED" in
      let leverage = change_leverage net intent.symbol intent.leverage in
      let entry =
        maker_first_entry net cfg.maker_entry_timeout intent.symbol (order_sides intent.side).0
          plan.entry plan.quantity id in
      let once : Grown NoOrder before (margin s).1.calls =
        Grown-trans _ _ _ _ g (Grown-one _ _ s.calls refl) in
      let twice : Grown NoOrder before (leverage (margin s).1).1.calls =
        Grown-trans _ _ _ _ once (Grown-one _ _ _ refl) in
      >>=-rule P margin (λ _. leverage >> (entry >>= protect net cfg intent id plan)) s
        (λ e k. inl (e, refl, once))
        (λ _ k.
          >>=-rule P leverage (λ _. entry >>= protect net cfg intent id plan) (margin s).1
            (λ e l. inl (e, refl, twice))
            (λ _ l. inr (entry_then-Entered intent target id filters plan before _ h twice)))

  open_position-Ended :
      (intent : OpenIntent) (target : Decimal) (id : String) (s : ExecutorState net.World)
      → Ended net cfg intent target id s.calls (open_position net cfg intent target id s)
  unfolding open_position open_with_filters
  open_position-Ended intent target id s =
      let P = Ended net cfg intent target id s.calls in
      let g = symbol_filters-Grown net cfg NoOrder intent.symbol s (λ _. refl) in
      >>=-rule P (symbol_filters net cfg intent.symbol) (open_with_filters net cfg intent target id)
        s (λ e h. inl (e, refl, g))
        (λ filters h.
          >>=-rule P (lift (plan_open intent target filters)) (open_planned net cfg intent id)
            (symbol_filters net cfg intent.symbol s).1 (λ e k. inl (e, refl, g))
            (λ plan k. open_planned-Ended intent target id filters plan s.calls _ k g))

-- `executeOpen` of an intent with a target ends in one of four ways. It is refused before any order
-- is placed or cancelled; or, with a plan that passed the checks, its entry fails and its error is
-- returned as it is; or the entry is made, both protecting orders are accepted right behind it and
-- the result has the plan's quantity; or one of them is refused, and then the stop (if it was placed)
-- and the entry are cancelled, the positions asked for, and only orders sent that can but make a position of the symbol smaller: each
-- for a row of the symbol in the answer, for its amount rounded down to the step size.
pub execute_open-Ended :
    (net : Network) (cfg : ExecutorConfig) (intent : OpenIntent) (target : Decimal)
    (more : List Decimal)
    → (id : String) (s : ExecutorState net.World) → intent.take_profits ≡ target ∷ more
    → Ended net cfg intent target id s.calls (execute_open net cfg (some intent) id s)
unfolding execute_open open_with
execute_open-Ended net cfg intent target more id s h =
    subst
      (λ targets. Ended net cfg intent target id s.calls (open_with net cfg intent id targets s))
      (sym h) (open_position-Ended net cfg intent target id s)
