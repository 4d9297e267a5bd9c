-- ===== src/Binance/Entry/Rounds.antt =====
-- The polls of `makerFirstEntry` of internal/exchange/binance/executor.go end.
use joinanny.Base.{
  ℕ, zero, suc, ◌+◌, ◌*◌, ◌/◌, ◌≤◌, ◌<◌, String, ◌≡◌, ◌≢◌, ◌∙◌, subst, refl, inl, inr, Bool, true,
  false, Option, none, some, List, ltb, arith, Bool-cases,
}
use text.Mathlib.Text.{◌==◌ as str_eq}
use joinanny.Decimal.{Decimal, is_positive, sub}
use joinanny.Binance.{Method, Call, Error, OrderResponse, Network, ExecutorState}
use joinanny.Binance.Exec.{Result, ok, err, >>=-rule}
use joinanny.Binance.Request.{
  Action, order_call, named_order, send, result_of, signed_request_in, new_order, query_order,
  cancel_order_status,
}
use joinanny.Binance.Quantity.{client_order_id}
use joinanny.Binance.Entry.{
  limit_params, no_response, executed_of, Polled, pause, time_now, after_wait, at_time, after_query,
  poll, market_rest, final_status, after_polls, rest_from, after_limit, maker_first_entry,
  poll_fuel,
}

-- The clock does not go back, and a wait that the context does not cut short takes 200 milliseconds.
pub record Clock (net : Network) : Type 0 where
  pub steady :
      (detached : Bool) (at : Option ℕ) (call : Call) (w : net.World)
      → net.now w ≤ net.now (net.round_trip detached at call w).1
  pub waits : (w : net.World) → (net.wait w).0 ≡ false → net.now w + 200 ≤ net.now (net.wait w).1

module _ (net : Network) where
  abbrev pub InRounds : {A : Type 0} → Result Error A × ExecutorState net.World → Type 0
  InRounds r = r.0 ≢ err Error.out_of_rounds

  result_of-in_rounds :
      {A : Type 0} (decode : net.Body → Option A) (answer : Option (ℕ × net.Body))
      → result_of net decode answer ≢ err Error.out_of_rounds
  unfolding result_of
  result_of-in_rounds decode none h = cc h
  result_of-in_rounds decode (some (status, body)) h = ground arith

  signed-InRounds :
      {A : Type 0} (detached : Bool) (call : Call) (decode : net.Body → Option A)
      → (s : ExecutorState net.World) → InRounds (signed_request_in net detached call decode s)
  unfolding signed_request_in send
  signed-InRounds detached call decode s =
      result_of-in_rounds decode (net.round_trip detached (some (net.now s.world)) call s.world).0

  new_order-InRounds :
      (params : List (String × String)) (s : ExecutorState net.World)
      → InRounds (new_order net params s)
  unfolding new_order
  new_order-InRounds params s = signed-InRounds false _ net.decode_order s

  module _ (clock : Clock net) (symbol id : String) (deadline : ℕ) where
    -- The polls that follow a wait end, where the deadline was not over before it.
    abbrev Again : Action net Polled → ExecutorState net.World → Type 0
    Again again s =
        ltb deadline (net.now s.world) ≡ false
        → (s' : ExecutorState net.World) → net.now s.world + 200 ≤ net.now s'.world
        → InRounds (again s')

    after_wait-InRounds :
        (again : Action net Polled) (ended : Bool) (s : ExecutorState net.World)
        → (ended ≡ false → InRounds (again s))
        → InRounds (after_wait net again symbol id ended s)
    unfolding after_wait
    after_wait-InRounds again true s h = λ q. cc q
    after_wait-InRounds again false s h = h refl

    at_time-InRounds :
        (again : Action net Polled) (status : OrderResponse) (s : ExecutorState net.World)
        → Again again s
        → InRounds (at_time net again symbol id deadline status (net.now s.world) s)
    unfolding at_time pause
    at_time-InRounds again status s h = elim (Bool-cases (ltb deadline (net.now s.world))) [
      | inl late ↦ rw (late, at_time) (λ q. cc q)
      | inr early ↦
          rw (early, at_time)
            (after_wait-InRounds again (net.wait s.world).0
              (record s { world = (net.wait s.world).1 })
              (λ go. h early _ (clock.waits s.world go)))
    ]

    after_query-InRounds :
        (again : Action net Polled) (answer : Result Error OrderResponse)
        (s : ExecutorState net.World)
        → Again again s
        → answer ≢ err Error.out_of_rounds
        → InRounds (after_query net again symbol id deadline answer s)
    unfolding after_query time_now
    after_query-InRounds again (err e) s h k = λ q. k (cc q)
    after_query-InRounds again (ok status) s h k =
        elim (Bool-cases (str_eq status.status "FILLED")) [
          | inl done ↦ rw (done, after_query) (λ q. cc q)
          | inr still ↦ rw (still, after_query) (at_time-InRounds again status s h)
        ]

    pub poll-InRounds :
        (fuel : ℕ) (s : ExecutorState net.World)
        → deadline < net.now s.world + 200 * fuel
        → InRounds (poll net (suc fuel) symbol id deadline s)
    unfolding poll query_order signed_request_in send
    poll-InRounds zero s h =
        let call = order_call Method.get (named_order symbol id) in
        let tick = clock.steady false (some (net.now s.world)) call s.world in
        after_query-InRounds (poll net 0 symbol id deadline) (query_order net symbol id s).0
          (query_order net symbol id s).1 (λ early. absurd (ground arith))
          (signed-InRounds false call net.decode_order s)
    poll-InRounds (suc fuel) s h =
        let call = order_call Method.get (named_order symbol id) in
        let tick = clock.steady false (some (net.now s.world)) call s.world in
        after_query-InRounds (poll net (suc fuel) symbol id deadline)
          (query_order net symbol id s).0 (query_order net symbol id s).1
          (λ early s' later. poll-InRounds fuel s' (omega arith))
          (signed-InRounds false call net.decode_order s)

  market_rest-InRounds :
      (symbol side : String) (quantity : Decimal) (id : String) (limit : OrderResponse)
      → (s : ExecutorState net.World) → InRounds (market_rest net symbol side quantity id limit s)
  unfolding market_rest
  market_rest-InRounds symbol side quantity id limit s =
      elim (Bool-cases (is_positive (sub quantity (executed_of limit)))) [
        | inl more ↦ rw (more, market_rest) (new_order-InRounds _ s)
        | inr enough ↦ rw (enough, market_rest) (λ q. cc q)
      ]

  after_polls-InRounds :
      (symbol side : String) (quantity : Decimal) (id : String) (p : Polled)
      → (s : ExecutorState net.World) → InRounds (after_polls net symbol side quantity id p s)
  unfolding after_polls cancel_order_status
  after_polls-InRounds symbol side quantity id (Polled.filled status) s = λ q. cc q
  after_polls-InRounds symbol side quantity id (Polled.unfilled status) s =
      let entry = client_order_id id "entry" in
      let again =
        signed-InRounds false (order_call Method.delete (named_order symbol entry)) net.decode_order
          s in
      >>=-rule InRounds (cancel_order_status net false symbol entry)
        (λ cancelled. market_rest net symbol side quantity id (final_status net status cancelled)) s
        (λ e h q. again (h ∙ cc q))
        (λ cancelled h.
          market_rest-InRounds symbol side quantity id (final_status net status cancelled) _)

  after_limit-InRounds :
      (clock : Clock net) (timeout : ℕ) (symbol side : String) (quantity : Decimal) (id : String)
      → (answer : Result Error OrderResponse) (s : ExecutorState net.World)
      → answer ≢ err Error.out_of_rounds
      → InRounds (after_limit net timeout symbol side quantity id answer s)
  unfolding after_limit rest_from time_now
  after_limit-InRounds clock timeout symbol side quantity id (ok limit) s k =
      let start = net.now s.world in
      let entry = client_order_id id "entry" in
      let ends : InRounds (poll net (poll_fuel net timeout) symbol entry (start + timeout) s) =
        let rounds : suc (timeout / 200 + 1) ≡ poll_fuel net timeout = omega arith in
        subst (λ n. InRounds (poll net n symbol entry (start + timeout) s)) rounds
          (poll-InRounds clock symbol entry (start + timeout) (timeout / 200 + 1) s
            (omega arith)) in
      >>=-rule InRounds (poll net (poll_fuel net timeout) symbol entry (start + timeout))
        (after_polls net symbol side quantity id) s (λ e h q. ends (h ∙ cc q))
        (λ p h. after_polls-InRounds symbol side quantity id p _)
  after_limit-InRounds clock timeout symbol side quantity id (err (Error.api e)) s k =
      market_rest-InRounds symbol side quantity id no_response s
  after_limit-InRounds clock timeout symbol side quantity id (err e) s k = k

-- The rounds of the model are enough: the polls of `makerFirstEntry` end by an answer, an error or
-- the deadline, if the clock does not go back and each wait takes its 200 milliseconds or ends the
-- call.
pub maker_first_entry-InRounds :
    (net : Network) (timeout : ℕ) (symbol side : String) (price quantity : Decimal) (id : String)
    → (s : ExecutorState net.World) → Clock net
    → InRounds net (maker_first_entry net timeout symbol side price quantity id s)
unfolding maker_first_entry new_order
maker_first_entry-InRounds net timeout symbol side price quantity id s clock =
    let params = limit_params symbol side price quantity (client_order_id id "entry") in
    after_limit-InRounds net clock timeout symbol side quantity id (new_order net params s).0
      (new_order net params s).1 (new_order-InRounds net params s)
