-- ===== src/Binance/Executor/Refused.antt =====
-- internal/exchange/binance/executor.go: the executor does not trade for real money.
use joinanny.Base.{String, ◌≡◌, refl, ◌⊎◌, inl, inr, true, false, ◌||◌, Option, arith, Bool-cases}
use text.Mathlib.Text.{◌==◌ as str_eq}
use joinanny.Base.Int.{ℤ}
use joinanny.Base.Text.{trim_space}
use joinanny.Decimal.{Decimal}
use joinanny.Domain.{PositionSide}
use joinanny.Orders.Store.{Confirmation}
use joinanny.Binance.{Error, ExecutorConfig, Network, ExecutorState}
use joinanny.Binance.Exec.{err, lift, >>=-err}
use joinanny.Binance.Request.{config_result}
use joinanny.Binance.Stops.{current_stop, current_checked, move_stop_loss, move_checked}
use joinanny.Binance.Realized.{realized_trade, realized_checked}
use joinanny.Binance.Executor.{execute, execute_intent, positions, positions_of_rows}

config_result-refuses :
    (cfg : ExecutorConfig)
    → (cfg.real_trading_enabled ≡ true) ⊎ (cfg.testnet ≡ false)
    → (e : Error) × (config_result cfg ≡ err e)
unfolding config_result
config_result-refuses cfg h =
    elim (Bool-cases
      (str_eq (trim_space cfg.api_key) "" || str_eq (trim_space cfg.api_secret) "")) [
        | inl keys ↦ (Error.no_keys, rw keys refl)
        | inr keys ↦ elim (Bool-cases (str_eq (trim_space cfg.base_url) "")) [
          | inl base ↦ (Error.no_base_url, rw (keys, base) refl)
          | inr base ↦ elim (Bool-cases cfg.real_trading_enabled) [
            | inl live ↦ (Error.live_not_wired, rw (keys, base, live) refl)
            | inr dry ↦
                let off : cfg.testnet ≡ false = ground arith in
                (Error.not_testnet, rw (keys, base, dry, off) refl)
          ]
        ]
      ]

-- With real trading switched on, or away from the test net, each of the executor's operations returns
-- one and the same error and leaves its state as it is, so it has asked nothing of the exchange.
pub real_trading_refused :
    (net : Network) (cfg : ExecutorConfig) (s : ExecutorState net.World)
    → (cfg.real_trading_enabled ≡ true) ⊎ (cfg.testnet ≡ false)
    → (e : Error) × ((c : Confirmation) → execute net cfg c s ≡ (err e, s))
      × (positions net cfg s ≡ (err e, s))
      × ((symbol side : String) (since : Option ℤ) (quantity : Decimal)
          → realized_trade net cfg symbol side since quantity s ≡ (err e, s))
      × ((symbol : String) → current_stop net cfg symbol s ≡ (err e, s))
      × ((symbol : String) (side : PositionSide) (stop : Decimal) (old new : String)
          → move_stop_loss net cfg symbol side stop old new s ≡ (err e, s))
unfolding execute positions realized_trade current_stop move_stop_loss
real_trading_refused net cfg s h =
    let (e, refused) = config_result-refuses cfg h in
    (
      e,
      λ c.
          >>=-err (lift (config_result cfg)) (λ _. execute_intent net cfg c.intent.kind c) s
            refused,
      >>=-err (lift (config_result cfg)) (λ _. positions_of_rows net cfg) s refused,
      λ symbol side since quantity.
          >>=-err (lift (config_result cfg)) (λ _. realized_checked net cfg _ _ since quantity) s
            refused,
      λ symbol. >>=-err (lift (config_result cfg)) (λ _. current_checked net cfg symbol) s refused,
      λ symbol side stop old new.
          >>=-err (lift (config_result cfg)) (λ _. move_checked net cfg symbol side stop old new) s
            refused,
    )
