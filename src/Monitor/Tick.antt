-- ===== src/Monitor/Tick.antt =====
-- internal/monitor/runner.go and multi.go: one pass that moves the stops of the open positions. The
-- exchange is an interface of the source: its calls act on a world, which the pass hands on.
pub mod OneWay
use joinanny.Base.{
  ℕ, suc, ◌+◌, ◌≡◌, ◌≢◌, ◌⊎◌, String, Bool, true, false, Option, none, some, List, [], ◌∷◌,
  if◌then◌else◌,
}
use joinanny.Decimal.{Decimal, is_zero}
use joinanny.Domain.{PositionSide, Position}
use joinanny.Monitor.Trailing.{TrailPolicy, compute_stop}

pub record StopState : Type 0 where
  pub price : Decimal
  pub client_algo_id : String

-- What `CurrentStop` returns: an error, `ok == false`, or the stop.
pub data StopRead : Type 0 where
  read_failed no_stop : StopRead
  found : StopState → StopRead

-- The interface `Exchange`. `none` of `positions` is an error; the Boolean of `move_stop_loss` is
-- true where it returns no error.
pub record Exchange : Type 1 where
  pub World : Type 0
  pub positions : World → Option (List Position)
  pub current_stop : World → String → StopRead
  pub move_stop_loss : World → String → PositionSide → Decimal → String → String → World × Bool

-- The fields of `Runner` that a pass reads or writes.
pub record Runner : Type 0 where
  pub policy : TrailPolicy
  pub new_id : String → ℕ → String
  pub seq : ℕ

module _ (ex : Exchange) where
  open ex use {World, positions, current_stop, move_stop_loss}

  -- The end of the loop's body, behind the call of `ComputeStop`.
  pub apply_move : Runner → World → Position → StopState → Decimal × Bool → Runner × World
  apply_move r w p stop (new_stop, false) = (r, w)
  apply_move r w p stop (new_stop, true) =
      let seq' = r.seq + 1 in
      (
        record r { seq = seq' },
        (move_stop_loss w p.symbol p.side new_stop stop.client_algo_id (r.new_id p.symbol seq')).0,
      )

  pub trail_stop : Runner → World → Position → StopRead → Runner × World
  trail_stop r w p StopRead.read_failed = (r, w)
  trail_stop r w p StopRead.no_stop = (r, w)
  trail_stop r w p (StopRead.found stop) =
      apply_move r w p stop (compute_stop p.side p.entry_price stop.price p.mark_price r.policy)

  -- The loop's body for one position.
  pub trail_position : Runner → World → Position → Runner × World
  trail_position r w p =
      if is_zero p.amount then (r, w) else trail_stop r w p (current_stop w p.symbol)

  pub trail_all : Runner → World → List Position → Runner × World
  trail_all r w [] = (r, w)
  trail_all r w (p ∷ ps) = let (r', w') = trail_position r w p in trail_all r' w' ps

  -- `Tick`; the Boolean is true where it returns no error.
  pub tick : Runner → World → (Runner × World) × Bool
  tick r w = elim (positions w) [ none ↦ ((r, w), false) | some ps ↦ (trail_all r w ps, true) ]
