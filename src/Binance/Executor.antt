-- ===== src/Binance/Executor.antt =====
-- internal/exchange/binance/executor.go: `NewExecutor`, `Execute` and `Positions`.
pub mod Refused
use joinanny.Base.{ℕ, String, Bool, Option, List, ◌==◌, if◌then◌else◌}
use joinanny.Domain.{Intent, IntentType, Position}
use joinanny.Orders.Store.{Confirmation}
use joinanny.Binance.{Error, ExecutorConfig, Network, ExecutorState}
use joinanny.Binance.Exec.{Result, ok, err, raise, lift, ◌>>=◌, ◌>>◌}
use joinanny.Binance.Request.{Action, config_result, position_risk}
use joinanny.Binance.Quantity.{positions_from}
use joinanny.Binance.Opening.{Opened, execute_open}
use joinanny.Binance.Closing.{Closed, execute_close}

-- The defaults that `NewExecutor` puts in: 15 minutes and 2 seconds.
unfoldable pub with_defaults : ExecutorConfig → ExecutorConfig
with_defaults cfg = record cfg {
  exchange_info_cache_ttl =
      if cfg.exchange_info_cache_ttl == 0 then 900000 else cfg.exchange_info_cache_ttl;
  maker_entry_timeout = if cfg.maker_entry_timeout == 0 then 2000 else cfg.maker_entry_timeout;
}

pub data Execution : Type 0 where
  entered : Opened → Execution
  exited : Closed → Execution

module _ (net : Network) (cfg : ExecutorConfig) where
  unfoldable pub as_entered : Opened → Action net Execution
  as_entered o s = (ok (entered o), s)

  unfoldable pub as_exited : Closed → Action net Execution
  as_exited c s = (ok (exited c), s)

  unfoldable pub execute_intent : IntentType → Confirmation → Action net Execution
  unfolding execute_open execute_close as_entered as_exited
  execute_intent IntentType.open_position c =
      execute_open net cfg c.intent.opening c.id >>= as_entered
  execute_intent IntentType.close_position c =
      execute_close net cfg c.intent.closing c.id >>= as_exited
  execute_intent kind c = raise Error.unsupported_intent

  -- `Execute`.
  unfoldable pub execute : Confirmation → Action net Execution
  unfolding config_result execute_intent
  execute c = lift (config_result cfg) >> execute_intent c.intent.kind c

  unfoldable pub positions_of_rows : Action net (List Position)
  unfolding position_risk positions_from
  positions_of_rows = position_risk net "" >>= λ rows. lift (positions_from rows)

  -- `Positions`.
  unfoldable pub positions : Action net (List Position)
  unfolding config_result positions_of_rows
  positions = lift (config_result cfg) >> positions_of_rows
