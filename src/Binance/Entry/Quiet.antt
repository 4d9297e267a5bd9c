-- ===== src/Binance/Entry/Quiet.antt =====
-- `makerFirstEntry` of internal/exchange/binance/executor.go: its polls place no order.
use text.Mathlib.Text.{◌==◌ as str_eq}
use joinanny.Base.{
  ℕ, zero, suc, String, ◌≢◌, subst, sym, inl, inr, Bool, true, false, List, ltb, Bool-cases,
}
use joinanny.Binance.{Method, Sent, Error, OrderResponse, Network, ExecutorState}
use joinanny.Binance.Exec.{Result, ok, err}
use joinanny.Binance.Request.{Action, send, query_order, cancel_order}
use joinanny.Binance.Entry.{Polled, pause, time_now, after_wait, at_time, after_query, poll}
use joinanny.Binance.Sending.{Grown, Grown-self, Grown-one, Grown-trans, cancel_order-calls}

-- A call that places nothing.
abbrev pub NoPost : Sent → Type 0
NoPost c = c.call.method ≢ Method.post

module _ (net : Network) where
  abbrev Quiet : List Sent → {A : Type 0} → Result Error A × ExecutorState net.World → Type 0
  Quiet before r = Grown NoPost before r.1.calls

  cancel_order-Quiet :
      (detached : Bool) (symbol id : String) (s : ExecutorState net.World)
      → Quiet s.calls (cancel_order net detached symbol id s)
  cancel_order-Quiet detached symbol id s =
      subst (Grown NoPost s.calls) (sym (cancel_order-calls net detached symbol id s))
        (Grown-one NoPost _ s.calls (λ q. cc q))

  module _ (symbol id : String) (deadline : ℕ) where
    after_wait-Quiet :
        (again : Action net Polled) (ended : Bool) (s : ExecutorState net.World)
        → Quiet s.calls (again s)
        → Quiet s.calls (after_wait net again symbol id ended s)
    unfolding after_wait
    after_wait-Quiet again true s h = cancel_order-Quiet true symbol id s
    after_wait-Quiet again false s h = h

    at_time-Quiet :
        (again : Action net Polled) (status : OrderResponse) (t : ℕ) (s : ExecutorState net.World)
        → ((s' : ExecutorState net.World) → Quiet s'.calls (again s'))
        → Quiet s.calls (at_time net again symbol id deadline status t s)
    unfolding at_time pause
    at_time-Quiet again status t s h = elim (Bool-cases (ltb deadline t)) [
      | inl late ↦ rw (late, at_time) (Grown-self NoPost s.calls)
      | inr early ↦
          rw (early, at_time)
            (after_wait-Quiet again (net.wait s.world).0 (record s { world = (net.wait s.world).1 })
              (h _))
    ]

    after_query-Quiet :
        (again : Action net Polled) (answer : Result Error OrderResponse)
        (s : ExecutorState net.World)
        → ((s' : ExecutorState net.World) → Quiet s'.calls (again s'))
        → Quiet s.calls (after_query net again symbol id deadline answer s)
    unfolding after_query time_now
    after_query-Quiet again (err e) s h = cancel_order-Quiet false symbol id s
    after_query-Quiet again (ok status) s h = elim (Bool-cases (str_eq status.status "FILLED")) [
      | inl done ↦ rw (done, after_query) (Grown-self NoPost s.calls)
      | inr still ↦ rw (still, after_query) (at_time-Quiet again status (net.now s.world) s h)
    ]

    pub poll-Quiet :
        (fuel : ℕ) (s : ExecutorState net.World)
        → Quiet s.calls (poll net fuel symbol id deadline s)
    unfolding poll query_order send
    poll-Quiet zero s = Grown-self NoPost s.calls
    poll-Quiet (suc fuel) s =
        let r = query_order net symbol id s in
        Grown-trans NoPost s.calls r.1.calls _ (Grown-one NoPost _ s.calls (λ q. cc q))
          (after_query-Quiet (poll net fuel symbol id deadline) r.0 r.1 (poll-Quiet fuel))
