-- ===== src/Monitor/Users.antt =====
-- internal/monitor/multi.go: the pass that moves the stops of every user, each on the user's own
-- account. The account of a user is a world of the exchange, which only that user's pass acts on;
-- the runner's `new_id` makes the ids that the source makes of its nonce.
use text.Mathlib.Text.{◌==◌ as str_eq}
use joinanny.Base.{String, Bool, true, false, Option, none, some, List, [], ◌∷◌, if◌then◌else◌}
use joinanny.Monitor.Tick.{Exchange, Runner, trail_all}

-- What `ExchangeFor` answers for a user: an error, no account, or that the account is there.
pub data Resolution : Type 0 where
  lookup_failed no_account own_account : Resolution

module _ (ex : Exchange) where
  open ex use {World, positions}

  unfoldable pub trail_positions :
      Runner → World → Option (List joinanny.Domain.Position) → Runner × World
  trail_positions r w none = (r, w)
  trail_positions r w (some ps) = trail_all ex r w ps

  -- `trailUser`.
  unfoldable pub trail_user : Runner → World → Runner × World
  trail_user r w = trail_positions r w (positions w)

  -- The accounts with the one of a user changed.
  unfoldable pub with_account : String → World → (String → World) → String → World
  with_account key w accounts k = if str_eq key k then w else accounts k

  -- The loop's body for one user.
  unfoldable pub trail_key :
      Resolution → String → Runner → (String → World) → Runner × (String → World)
  trail_key Resolution.lookup_failed key r accounts = (r, accounts)
  trail_key Resolution.no_account key r accounts = (r, accounts)
  trail_key Resolution.own_account key r accounts =
      let (r', w') = trail_user r (accounts key) in (r', with_account key w' accounts)

  unfoldable pub trail_keys :
      (String → Resolution) → List String → Runner → (String → World) → Runner × (String → World)
  trail_keys resolve [] r accounts = (r, accounts)
  trail_keys resolve (key ∷ keys) r accounts =
      let (r', accounts') = trail_key (resolve key) key r accounts in
      trail_keys resolve keys r' accounts'

  -- `MultiTrailer.Tick`; `none` is the error of the list of users.
  unfoldable pub tick_users :
      (String → Resolution)
      → Option (List String)
      → Runner
      → (String → World)
      → (Runner × (String → World)) × Bool
  tick_users resolve none r accounts = ((r, accounts), false)
  tick_users resolve (some keys) r accounts = (trail_keys resolve keys r accounts, true)
