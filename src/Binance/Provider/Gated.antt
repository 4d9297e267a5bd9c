-- ===== src/Binance/Provider/Gated.antt =====
-- internal/exchange/binance/provider.go: the gates of the base configuration hold for every user.
use text.Mathlib.Text.{◌==◌ as str_eq}
use joinanny.Base.{
  ◌≡◌, refl, sym, ◌∙◌, subst, ◌⊎◌, inl, inr, true, false, String, Option, none, some, List, [], ◌∷◌,
  if◌then◌else◌, Bool-cases,
}
use joinanny.Base.Table.{Table, lookup, insert, lookup-insert}
use joinanny.Orders.Service.{Found, found}
use joinanny.Base.Int.{ℤ}
use joinanny.Decimal.{Decimal}
use joinanny.Domain.{PositionSide}
use joinanny.Orders.Store.{Confirmation}
use joinanny.Binance.{Error, ExecutorConfig, Network, ExecutorState}
use joinanny.Binance.Exec.{err}
use joinanny.Binance.Stops.{current_stop, move_stop_loss}
use joinanny.Binance.Realized.{realized_trade}
use joinanny.Binance.Executor.{with_defaults, execute, positions}
use joinanny.Binance.Executor.Refused.{real_trading_refused}
use joinanny.Binance.Provider.{
  BinanceKeys, Loaded, no_credential, load_error, loaded, config_for, cache_key, executor_cached,
  executor_for_keys,
}

-- An executor that can trade only where and as the base configuration lets it.
pub record IsGated (base cfg : ExecutorConfig) : Type 0 where
  pub testnet : cfg.testnet ≡ base.testnet
  pub real_trading : cfg.real_trading_enabled ≡ base.real_trading_enabled
  pub address : cfg.base_url ≡ base.base_url

abbrev pub AllGated : ExecutorConfig → Table ExecutorConfig → Type 0
AllGated base cache =
    (key : String) (cfg : ExecutorConfig) → lookup key cache ≡ some cfg → IsGated base cfg

abbrev pub FoundGated : ExecutorConfig → Found ExecutorConfig × Table ExecutorConfig → Type 0
FoundGated base r =
    AllGated base r.1 × ((cfg : ExecutorConfig) → r.0 ≡ found cfg → IsGated base cfg)

config_for-IsGated :
    (base : ExecutorConfig) (keys : BinanceKeys) → IsGated base (config_for base keys)
unfolding config_for with_defaults
config_for-IsGated base keys = record { testnet = refl; real_trading = refl; address = refl }

found_same : (a b : ExecutorConfig) → ◌≡◌ {A = Found ExecutorConfig} (found a) (found b) → a ≡ b
found_same a b h = cc

some_same : (a b : ExecutorConfig) → some a ≡ some b → a ≡ b
some_same a b h = cc

insert-AllGated :
    (base : ExecutorConfig) (key : String) (cfg : ExecutorConfig) (cache : Table ExecutorConfig)
    → IsGated base cfg
    → AllGated base cache
    → AllGated base (insert key cfg cache)
insert-AllGated base key cfg cache g all other c h =
    let k : (if str_eq key other then some cfg else lookup other cache) ≡ some c =
      sym (lookup-insert key other cfg cache) ∙ h in
    elim (Bool-cases (str_eq key other)) [
      | inl same ↦
          let q : some cfg ≡ some c = rw same at k in subst (IsGated base) (some_same cfg c q) g
      | inr apart ↦ let q : lookup other cache ≡ some c = rw apart at k in all other c q
    ]

executor_cached-FoundGated :
    (base : ExecutorConfig) (user : String) (keys : BinanceKeys) (o : Option ExecutorConfig)
    → (cache : Table ExecutorConfig) → lookup (cache_key user keys) cache ≡ o
    → AllGated base cache
    → FoundGated base (executor_cached base user keys o cache)
unfolding executor_cached
executor_cached-FoundGated base user keys (some cfg) cache e all =
    (all, λ c h. subst (IsGated base) (found_same cfg c h) (all (cache_key user keys) cfg e))
executor_cached-FoundGated base user keys none cache e all =
    let g = config_for-IsGated base keys in
    (
      insert-AllGated base (cache_key user keys) (config_for base keys) cache g all,
      λ c h. subst (IsGated base) (found_same (config_for base keys) c h) g,
    )

-- A user's key never widens the gates, nor does the user's flag of the test net: with a cache of executors that have the base configuration's
-- test net switch, real trading switch and address, `ExecutorFor` leaves such a cache and returns such
-- an executor, whatever the loader answers and whichever users share the cache.
pub executor_for_keys-FoundGated :
    (base : ExecutorConfig) (user : String) (answer : Loaded) (cache : Table ExecutorConfig)
    → AllGated base cache
    → FoundGated base (executor_for_keys base user answer cache)
unfolding executor_for_keys
executor_for_keys-FoundGated base user no_credential cache all = (all, λ c h. cc h)
executor_for_keys-FoundGated base user (load_error e) cache all = (all, λ c h. cc h)
executor_for_keys-FoundGated base user (loaded keys) cache all =
    executor_cached-FoundGated base user keys (lookup (cache_key user keys) cache) cache refl all

pub empty-AllGated : (base : ExecutorConfig) → AllGated base []
unfolding lookup
empty-AllGated base key cfg h = cc

-- The cache behind calls for users, each with the answer of the loader.
abbrev pub cache_after : ExecutorConfig → List (String × Loaded) → Table ExecutorConfig
cache_after base [] = []
cache_after base ((user, answer) ∷ earlier) =
    (executor_for_keys base user answer (cache_after base earlier)).1

cache_after-AllGated :
    (base : ExecutorConfig) (calls : List (String × Loaded))
    → AllGated base (cache_after base calls)
cache_after-AllGated base [] = empty-AllGated base
cache_after-AllGated base ((user, answer) ∷ earlier) =
    (executor_for_keys-FoundGated base user answer (cache_after base earlier)
      (cache_after-AllGated base earlier)).0

-- Each operation of the executor returns the same error and leaves its state.
abbrev pub RefusesAll : (net : Network) → ExecutorConfig → ExecutorState net.World → Type 0
RefusesAll net cfg s =
    (e : Error) × ((c : Confirmation) → execute net cfg c s ≡ (err e, s))
    × (positions net cfg s ≡ (err e, s))
    × ((symbol side : String) (since : Option ℤ) (quantity : Decimal)
        → realized_trade net cfg symbol side since quantity s ≡ (err e, s))
    × ((symbol : String) → current_stop net cfg symbol s ≡ (err e, s))
    × ((symbol : String) (side : PositionSide) (stop : Decimal) (old new : String)
        → move_stop_loss net cfg symbol side stop old new s ≡ (err e, s))

-- No user trades where the bot may not: with a base configuration that has real trading switched on or
-- is away from the test net, behind any calls for any users, whatever keys and flags they have stored,
-- an executor that the provider finds returns an error from each of its operations, asks nothing of
-- the exchange and leaves its state as it is.
pub found_executor-RefusesAll :
    (base : ExecutorConfig) (calls : List (String × Loaded)) (user : String) (answer : Loaded)
    (cfg : ExecutorConfig) (net : Network) (s : ExecutorState net.World)
    → (base.real_trading_enabled ≡ true) ⊎ (base.testnet ≡ false)
    → (executor_for_keys base user answer (cache_after base calls)).0 ≡ found cfg
    → RefusesAll net cfg s
found_executor-RefusesAll base calls user answer cfg net s gate h =
    let gated =
      (executor_for_keys-FoundGated base user answer (cache_after base calls)
          (cache_after-AllGated base calls)).1
        cfg h in
    real_trading_refused net cfg s (elim gate [
      | inl live ↦ inl (gated.real_trading ∙ live)
      | inr off ↦ inr (gated.testnet ∙ off)
    ])
