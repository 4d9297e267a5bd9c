-- ===== src/Binance/Rollback/Undone.antt =====
-- `rollbackOpen` of internal/exchange/binance/executor.go: the calls that it always makes.
use joinanny.Base.{String, ◌≡◌, refl, Bool, true, false, List, [], ◌∷◌, if◌then◌else◌}
use joinanny.Binance.{Method, Sent, ExecutorConfig, Network, ExecutorState}
use joinanny.Binance.Exec.{ok}
use joinanny.Binance.Request.{
  send, accepted_of, order_call, algo_call, named_order, position_call, cancel_order,
  cancel_algo_order, position_risk,
}
use joinanny.Binance.Quantity.{client_order_id}
use joinanny.Binance.Rollback.{cancel_stop_if, rollback_open}
use joinanny.Binance.Sending.{Grown, cancel_order-calls}
use joinanny.Binance.Rollback.Flattened.{Flattens, flatten_position-More}

-- What undoing an opening asks of the exchange: the stop's cancel where it was placed, the cancel of
-- the entry, the positions, and then nothing but orders that flatten what the answer to that question
-- holds of the symbol.
pub record Undone (net : Network) (cfg : ExecutorConfig) (symbol id : String) (stop_placed : Bool)
    (before after : List Sent) : Type 0 where
  pub stop_cancelled : Bool
  pub entry_cancelled : Bool
  pub at : ExecutorState net.World
  pub at_calls :
      at.calls
      ≡ record {
        call = order_call Method.delete (named_order symbol (client_order_id id "entry"));
        accepted = entry_cancelled;
      }
        ∷ (if stop_placed
            then record {
              call = algo_call Method.delete (("clientAlgoId", client_order_id id "sl") ∷ []);
              accepted = stop_cancelled;
            }
              ∷ before
            else before)
  pub flattened :
      let answer = (position_risk net symbol at).0 in
      Grown
        (Flattens net cfg symbol (client_order_id id "rb") at)
        (record { call = position_call symbol; accepted = accepted_of net answer } ∷ at.calls)
        after

-- `rollbackOpen` goes through all its steps whichever of its calls fail.
pub rollback_open-Undone :
    (net : Network) (cfg : ExecutorConfig) (symbol id : String) (stop_placed : Bool)
    → (s : ExecutorState net.World)
    → let r = rollback_open net cfg symbol id stop_placed s in
      (r.0 ≡ ok tt) × Undone net cfg symbol id stop_placed s.calls r.1.calls
unfolding rollback_open cancel_stop_if cancel_algo_order send
rollback_open-Undone net cfg symbol id true s =
    let entry = client_order_id id "entry" in
    let s' = (cancel_algo_order net (client_order_id id "sl") s).1 in
    (
      refl,
      record {
        stop_cancelled = _;
        entry_cancelled = _;
        at = (cancel_order net false symbol entry s').1;
        at_calls = cancel_order-calls net false symbol entry s';
        flattened =
            flatten_position-More net cfg symbol (client_order_id id "rb")
              (cancel_order net false symbol entry s').1;
      },
    )
rollback_open-Undone net cfg symbol id false s =
    let entry = client_order_id id "entry" in
    (
      refl,
      record {
        stop_cancelled = false;
        entry_cancelled = _;
        at = (cancel_order net false symbol entry s).1;
        at_calls = cancel_order-calls net false symbol entry s;
        flattened =
            flatten_position-More net cfg symbol (client_order_id id "rb")
              (cancel_order net false symbol entry s).1;
      },
    )
