-- ===== src/Tests/Accounts.antt =====
-- The executors of the users at a base configuration.
use joinanny.Base.{true, false, inr, refl, [], ◌∷◌}
use joinanny.Binance.{ExecutorConfig}
use joinanny.Binance.Provider.{
  BinanceKeys, loaded, no_credential, config_for, executor_cached, executor_for_keys,
}
use joinanny.Binance.Provider.Gated.{
  FoundGated, executor_for_keys-FoundGated, empty-AllGated, RefusesAll, found_executor-RefusesAll,
}
use joinanny.Base.Table.{lookup}
use joinanny.Tests.Exchange.{small_exchange, start}

abbrev base : ExecutorConfig
base = record {
  api_key = "";
  api_secret = "";
  base_url = "https://testnet";
  testnet = true;
  real_trading_enabled = false;
  exchange_info_cache_ttl = 0;
  maker_entry_timeout = 0;
}

abbrev own_keys : BinanceKeys
own_keys = record { api_key = "k"; api_secret = "s"; testnet = false }

executor_for_keys-FoundGated_example :
    FoundGated base (executor_for_keys base "user" (loaded own_keys) [])
executor_for_keys-FoundGated_example =
    executor_for_keys-FoundGated base "user" (loaded own_keys) [] (empty-AllGated base)

-- The base configuration, away from the test net.
abbrev off_base : ExecutorConfig
off_base = record base { testnet = false }

abbrev tester : BinanceKeys
tester = record own_keys { testnet = true }

found_executor-RefusesAll_example : RefusesAll small_exchange (config_for off_base tester) start
unfolding executor_for_keys executor_cached lookup
found_executor-RefusesAll_example =
    found_executor-RefusesAll off_base (("else", no_credential) ∷ []) "user" (loaded tester)
      (config_for off_base tester) small_exchange start (inr refl) refl
