-- ===== src/Binance/Stops/NewFirst.antt =====
-- `MoveStopLoss` of internal/exchange/binance/executor.go: the order of its two calls.
use joinanny.Base.{String, ◌≡◌, ◌≢◌, refl, sym, ◌⊎◌, inl, inr, Bool, true, List, [], ◌∷◌}
use joinanny.Decimal.{Decimal, floor_to_step}
use joinanny.Domain.{PositionSide}
use joinanny.Binance.{
  Method, Call, Sent, Error, SymbolFilters, ExecutorConfig, Network, ExecutorState,
}
use joinanny.Binance.Exec.{Result, ok, err, lift, pure, attempt, ◌>>◌, >>=-rule}
use joinanny.Binance.Request.{
  send, accepted_of, config_result, algo_call, new_algo_order, cancel_algo_order,
}
use joinanny.Binance.Filters.{of_exact, symbol_filters}
use joinanny.Binance.Quantity.{exit_side}
use joinanny.Binance.Opening.{trigger_params}
use joinanny.Binance.Stops.{replace_stop, move_rounded, move_checked, move_stop_loss}
use joinanny.Binance.Sending.{Grown, Grown-self, Grown-one, Grown-trans, symbol_filters-Grown}

abbrev pub CancelsNothing : Sent → Type 0
CancelsNothing c = c.call.method ≢ Method.delete

abbrev pub cancel_call : String → Call
cancel_call id = algo_call Method.delete (("clientAlgoId", id) ∷ [])

abbrev pub new_stop_call : String → PositionSide → Decimal → String → Call
new_stop_call symbol side stop id =
    algo_call Method.post (trigger_params symbol (exit_side side) "STOP_MARKET" stop id)

-- The calls end with the cancel of the old stop, right behind the new stop, which was accepted.
pub record Replaced (before : List Sent) (placed cancelled : Call) (after : List Sent)
    : Type 0 where
  pub older : List Sent
  pub cancel_accepted : Bool
  pub ends :
      after
      ≡ record { call = cancelled; accepted = cancel_accepted }
        ∷ record { call = placed; accepted = true }
        ∷ older
  pub nothing_before : Grown CancelsNothing before older

-- Either an error and no cancel, or the new stop at some price and then the cancel of the old one.
abbrev pub Moved :
    List Sent
    → (Decimal → Call)
    → Call
    → {W : Type 0} → Result Error (Unit {0}) × ExecutorState W
    → Type 0
Moved before placed cancelled r =
    ((e : Error) × (r.0 ≡ err e) × Grown CancelsNothing before r.1.calls)
    ⊎ ((stop : Decimal) × (r.0 ≡ ok tt) × Replaced before (placed stop) cancelled r.1.calls)

module _ (net : Network) (cfg : ExecutorConfig) where
  replace_stop-Moved :
      (placed : Decimal → Call) (stop : Decimal) (params : List (String × String)) (old_id : String)
      → (before : List Sent) (s : ExecutorState net.World)
      → placed stop ≡ algo_call Method.post params
      → Grown CancelsNothing before s.calls
      → Moved before placed (cancel_call old_id) (replace_stop net cfg params old_id s)
  unfolding replace_stop new_algo_order cancel_algo_order send
  replace_stop-Moved placed stop params old_id before s same g =
      >>=-rule (Moved before placed (cancel_call old_id)) (new_algo_order net params)
        (λ _. attempt (cancel_algo_order net old_id) >> pure tt) s
        (λ x e.
          let more = Grown-one CancelsNothing _ s.calls (λ q. cc q) in
          inl (x, refl, Grown-trans CancelsNothing _ _ _ g more))
        (λ response e.
          let cancelled : Bool =
            accepted_of net (cancel_algo_order net old_id (new_algo_order net params s).1).0 in
          inr (
            stop,
            refl,
            record {
              older = s.calls;
              cancel_accepted = cancelled;
              ends = λ i.
                  record { call = cancel_call old_id; accepted = cancelled }
                  ∷ record { call = sym same i; accepted = accepted_of net (e i) }
                  ∷ s.calls;
              nothing_before = g;
            },
          ))

  move_rounded-Moved :
      (symbol : String) (side : PositionSide) (new_stop : Decimal) (old_id new_id : String)
      → (filters : SymbolFilters) (before : List Sent) (s : ExecutorState net.World)
      → Grown CancelsNothing before s.calls
      → Moved before
          (λ stop. new_stop_call symbol side stop new_id)
          (cancel_call old_id)
          (move_rounded net cfg symbol side new_stop old_id new_id filters s)
  unfolding move_rounded
  move_rounded-Moved symbol side new_stop old_id new_id filters before s g =
      >>=-rule (Moved before (λ stop. new_stop_call symbol side stop new_id) (cancel_call old_id))
        (lift (of_exact (floor_to_step new_stop filters.tick_size)))
        (λ stop.
          replace_stop net cfg (trigger_params symbol (exit_side side) "STOP_MARKET" stop new_id)
            old_id)
        s (λ e h. inl (e, refl, g))
        (λ stop h.
          replace_stop-Moved (λ stop. new_stop_call symbol side stop new_id) stop _ old_id before s
            refl g)

  move_checked-Moved :
      (symbol : String) (side : PositionSide) (new_stop : Decimal) (old_id new_id : String)
      → (s : ExecutorState net.World)
      → Moved s.calls
          (λ stop. new_stop_call symbol side stop new_id)
          (cancel_call old_id)
          (move_checked net cfg symbol side new_stop old_id new_id s)
  unfolding move_checked
  move_checked-Moved symbol side new_stop old_id new_id s =
      let g = symbol_filters-Grown net cfg CancelsNothing symbol s (λ _ q. cc q) in
      >>=-rule (Moved s.calls (λ stop. new_stop_call symbol side stop new_id) (cancel_call old_id))
        (symbol_filters net cfg symbol) (move_rounded net cfg symbol side new_stop old_id new_id) s
        (λ e h. inl (e, refl, g))
        (λ filters h. move_rounded-Moved symbol side new_stop old_id new_id filters s.calls _ g)

-- `MoveStopLoss` never leaves the position without a stop that was there: where it returns an error,
-- it has cancelled nothing; where it does not, its last two calls are the new stop, accepted, and
-- then the cancel of the old one, and no call before them cancels anything.
pub move_stop_loss-Moved :
    (net : Network) (cfg : ExecutorConfig) (symbol : String) (side : PositionSide)
    → (new_stop : Decimal) (old_id new_id : String) (s : ExecutorState net.World)
    → Moved s.calls
        (λ stop. new_stop_call symbol side stop new_id)
        (cancel_call old_id)
        (move_stop_loss net cfg symbol side new_stop old_id new_id s)
unfolding move_stop_loss
move_stop_loss-Moved net cfg symbol side new_stop old_id new_id s =
    >>=-rule (Moved s.calls (λ stop. new_stop_call symbol side stop new_id) (cancel_call old_id))
      (lift (config_result cfg)) (λ _. move_checked net cfg symbol side new_stop old_id new_id) s
      (λ e h. inl (e, refl, Grown-self CancelsNothing s.calls))
      (λ _ h. move_checked-Moved net cfg symbol side new_stop old_id new_id s)
