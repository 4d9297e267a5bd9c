-- ===== src/Binance/Provider.antt =====
-- internal/exchange/binance/provider.go: an executor for each user's key. An executor stands for its
-- configuration; the cache keeps it under the user's key and the key of the account.
pub mod Gated
use Prim.Native.String.{◌++◌}
use joinanny.Base.{Bool, String, Option, none, some}
use joinanny.Base.Table.{Table, lookup, insert}
use joinanny.Orders.Service.{Found, lookup_error, absent, found}
use joinanny.Binance.{ExecutorConfig}
use joinanny.Binance.Executor.{with_defaults}

pub record BinanceKeys : Type 0 where
  pub api_key : String
  pub api_secret : String
  pub testnet : Bool

-- What the loader of credentials answers.
pub data Loaded : Type 0 where
  no_credential : Loaded
  load_error : String → Loaded
  loaded : BinanceKeys → Loaded

-- The base configuration with the user's keys; the gates are those of the base, whatever the user's
-- flag of the test net says.
unfoldable pub config_for : ExecutorConfig → BinanceKeys → ExecutorConfig
unfolding with_defaults
config_for base keys = with_defaults (record base {
  api_key = keys.api_key;
  api_secret = keys.api_secret;
  testnet = base.testnet;
  real_trading_enabled = base.real_trading_enabled;
})

abbrev pub cache_key : String → BinanceKeys → String
cache_key user keys = user ++ "|" ++ keys.api_key

unfoldable pub executor_cached :
    ExecutorConfig
    → String
    → BinanceKeys
    → Option ExecutorConfig
    → Table ExecutorConfig
    → Found ExecutorConfig × Table ExecutorConfig
unfolding config_for
executor_cached base user keys (some cfg) cache = (found cfg, cache)
executor_cached base user keys none cache =
    let cfg = config_for base keys in (found cfg, insert (cache_key user keys) cfg cache)

-- `ExecutorFor`, from what the loader answers.
unfoldable pub executor_for_keys :
    ExecutorConfig
    → String
    → Loaded
    → Table ExecutorConfig
    → Found ExecutorConfig × Table ExecutorConfig
unfolding executor_cached
executor_for_keys base user no_credential cache = (absent, cache)
executor_for_keys base user (load_error e) cache = (lookup_error e, cache)
executor_for_keys base user (loaded keys) cache =
    executor_cached base user keys (lookup (cache_key user keys) cache) cache
