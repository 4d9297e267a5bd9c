-- ===== src/Binance/Opening/Leg.antt =====
-- `executeOpen` of internal/exchange/binance/executor.go: a protecting order.
use joinanny.Base.{String, ◌≡◌, refl, sym, subst, ◌⊎◌, inl, inr, Bool, true, false, List, ◌∷◌}
use joinanny.Binance.{
  Method, Call, Sent, Error, AlgoOrderResponse, ExecutorConfig, Network, ExecutorState,
}
use joinanny.Binance.Exec.{Result, ok, err, >>=-ok, raise}
use joinanny.Binance.Request.{send, accepted_of, algo_call, new_algo_order}
use joinanny.Binance.Opening.{protected_or_undone, protect_or_undo}
use joinanny.Binance.Rollback.{rollback_open}
use joinanny.Binance.Rollback.Undone.{Undone, rollback_open-Undone}

-- The protecting order of a leg was answered; where it was not accepted, the opening was undone.
pub record Leg (net : Network) (cfg : ExecutorConfig) (symbol id : String) (stop_placed : Bool)
    (call : Call) (before : List Sent)
    (r : Result Error AlgoOrderResponse × ExecutorState net.World) : Type 0 where
  pub outcome :
      ((response : AlgoOrderResponse) × (r.0 ≡ ok response)
        × (r.1.calls ≡ record { call = call; accepted = true } ∷ before))
      ⊎ ((e : Error) × (r.0 ≡ err e)
          × Undone net cfg symbol id stop_placed
              (record { call = call; accepted = false } ∷ before)
              r.1.calls)

module _ (net : Network) (cfg : ExecutorConfig) where
  protected_or_undone-Leg :
      (symbol id : String) (stop_placed : Bool) (call : Call) (before : List Sent)
      → (answer : Result Error AlgoOrderResponse) (s : ExecutorState net.World)
      → s.calls ≡ record { call = call; accepted = accepted_of net answer } ∷ before
      → Leg net cfg symbol id stop_placed call before
          (protected_or_undone net cfg symbol id stop_placed answer s)
  unfolding protected_or_undone
  protected_or_undone-Leg symbol id stop_placed call before (ok response) s e = record {
    outcome = inl (response, refl, e);
  }
  protected_or_undone-Leg symbol id stop_placed call before (err x) s e =
      let (done, undone) = rollback_open-Undone net cfg symbol id stop_placed s in
      subst (Leg net cfg symbol id stop_placed call before)
        (sym (>>=-ok (rollback_open net cfg symbol id stop_placed) (λ _. raise x) s done))
        (record {
          outcome = inr (
            x,
            refl,
            subst
                (λ l.
                  Undone net cfg symbol id stop_placed l
                    (rollback_open net cfg symbol id stop_placed s).1.calls)
                e undone,
          );
        })

  pub protect_or_undo-Leg :
      (symbol id : String) (stop_placed : Bool) (params : List (String × String))
      (s : ExecutorState net.World)
      → Leg net cfg symbol id stop_placed
          (algo_call Method.post params)
          s.calls
          (protect_or_undo net cfg symbol id stop_placed params s)
  unfolding protect_or_undo new_algo_order send
  protect_or_undo-Leg symbol id stop_placed params s =
      let r = new_algo_order net params s in
      protected_or_undone-Leg symbol id stop_placed (algo_call Method.post params) s.calls r.0 r.1
        refl
