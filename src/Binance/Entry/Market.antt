-- ===== src/Binance/Entry/Market.antt =====
-- `makerFirstEntry` of internal/exchange/binance/executor.go: when it buys at the market.
use text.Mathlib.Text.{◌==◌ as str_eq}
use text.Mathlib.TextEquality.{eq_iff}
use joinanny.Base.{
  ℕ, ◌+◌, String, ◌≡◌, ◌≢◌, ◌∙◌, ap, subst, sym, refl, ◌⊎◌, inl, inr, Bool, true, false, List, ◌∷◌,
  Bool-cases,
}
use joinanny.Base.Text.{trim_space}
use joinanny.Decimal.{Decimal, decimal_zero, is_positive, sub}
use joinanny.Decimal.Text.{Parsed, ParseError, parse, parsed, malformed}
use joinanny.Binance.{Method, Call, Sent, ApiError, Error, OrderResponse, Network, ExecutorState}
use joinanny.Binance.Exec.{Result, ok, err, >>=-rule}
use joinanny.Binance.Request.{
  accepted_of, order_call, named_order, send, new_order, cancel_order_status,
}
use joinanny.Binance.Quantity.{client_order_id}
use joinanny.Binance.Entry.{
  limit_params, market_params, no_response, parsed_or_zero, executed_of, Polled, time_now, poll,
  market_rest, final_status, after_polls, rest_from, after_limit, maker_first_entry, poll_fuel,
}
use joinanny.Binance.Sending.{Grown, Grown-self, Grown-one, Grown-trans}
use joinanny.Binance.Entry.Quiet.{NoPost, poll-Quiet}

-- The quantity that an order's answer tells as executed: none is told by an empty text or by one that
-- is not a number.
abbrev pub Told : String → Decimal → Type 0
Told text d =
    ((trim_space text ≡ "") × (d ≡ decimal_zero))
    ⊎ ((trim_space text ≢ "")
        × ((parse text ≡ parsed d)
            ⊎ ((e : ParseError) × (parse text ≡ malformed e) × (d ≡ decimal_zero))))

-- What is known of the limit order behind its cancel: the answer to the cancel where that has a
-- quantity, and else the last poll.
abbrev pub Known : OrderResponse → OrderResponse → OrderResponse → Type 0
Known polled cancelled known =
    ((cancelled.executed_qty ≡ "") × (known ≡ polled))
    ⊎ ((cancelled.executed_qty ≢ "") × (known ≡ cancelled))

-- A market order for what is left of the quantity behind what is told as executed.
pub record Bought (symbol side : String) (quantity : Decimal) (id : String) (known : OrderResponse)
    (older after : List Sent) : Type 0 where
  pub executed : Decimal
  pub told : Told known.executed_qty executed
  pub left : is_positive (sub quantity executed) ≡ true
  pub accepted : Bool
  pub ends :
      after
      ≡ record {
        call =
            order_call Method.post
              (market_params symbol side (sub quantity executed) (client_order_id id "entrym"));
        accepted = accepted;
      }
        ∷ older

-- The market was asked behind a limit order that was polled to the deadline and cancelled.
pub record BoughtRest (net : Network) (timeout : ℕ) (limit cancel : Call) (symbol side : String)
    (quantity : Decimal) (id : String) (before : List Sent)
    (first : Result Error OrderResponse × ExecutorState net.World) (after : List Sent)
    : Type 0 where
  pub response : OrderResponse
  pub answered : first.0 ≡ ok response
  pub polled : OrderResponse
  pub at : ExecutorState net.World
  pub polls :
      poll net
        (poll_fuel net timeout)
        symbol
        (client_order_id id "entry")
        (net.now first.1.world + timeout)
        first.1
      ≡ (ok (Polled.unfilled polled), at)
  pub quiet : Grown NoPost (record { call = limit; accepted = true } ∷ before) at.calls
  pub cancelled : OrderResponse
  pub cancels :
      (cancel_order_status net false symbol (client_order_id id "entry") at).0 ≡ ok cancelled
  pub known : OrderResponse
  pub knows : Known polled cancelled known
  pub bought :
      Bought symbol side quantity id known
        (record { call = cancel; accepted = true } ∷ at.calls)
        after

executed_of-Told : (r : OrderResponse) → Told r.executed_qty (executed_of r)
unfolding executed_of
executed_of-Told r = elim (Bool-cases (str_eq (trim_space r.executed_qty) "")) [
  | inl silent ↦ inl ((eq_iff (trim_space r.executed_qty) "").0 silent, rw silent refl)
  | inr says ↦ inr (
    λ e. let q : true ≡ false = sym ((eq_iff (trim_space r.executed_qty) "").1 e) ∙ says in cc,
    by_parse (parse r.executed_qty) refl says,
  )
]
  where
    by_parse :
        (p : Parsed)
        → parse r.executed_qty ≡ p
        → str_eq (trim_space r.executed_qty) "" ≡ false
        → (parse r.executed_qty ≡ parsed (executed_of r))
          ⊎ ((e : ParseError) × (parse r.executed_qty ≡ malformed e)
              × (executed_of r ≡ decimal_zero))
    by_parse (parsed d) h says = inl (h ∙ ap parsed (sym (rw (says, parsed_or_zero, h) refl)))
    by_parse (malformed e) h says = inr (e, h, rw (says, parsed_or_zero, h) refl)

module _ (net : Network) where
  market_rest-Bought :
      (symbol side : String) (quantity : Decimal) (id : String) (known : OrderResponse)
      → (s : ExecutorState net.World)
      → let r = market_rest net symbol side quantity id known s in
        (r.1.calls ≡ s.calls) ⊎ Bought symbol side quantity id known s.calls r.1.calls
  unfolding market_rest new_order send
  market_rest-Bought symbol side quantity id known s =
      elim (Bool-cases (is_positive (sub quantity (executed_of known)))) [
        | inl more ↦
            rw (more, market_rest)
              (inr (record {
                executed = executed_of known;
                told = executed_of-Told known;
                left = more;
                accepted = _;
                ends = refl;
              }))
        | inr enough ↦ rw (enough, market_rest) (inl refl)
      ]

  final_status-Known :
      (polled cancelled : OrderResponse)
      → Known polled cancelled (final_status net polled cancelled)
  final_status-Known polled cancelled = elim (Bool-cases (str_eq cancelled.executed_qty "")) [
    | inl silent ↦ inl ((eq_iff cancelled.executed_qty "").0 silent, rw silent refl)
    | inr says ↦ inr (
      λ e. let q : true ≡ false = sym ((eq_iff cancelled.executed_qty "").1 e) ∙ says in cc,
      rw says refl,
    )
  ]

  -- What followed the answer to the limit order: no further order; or, where the answer was an HTTP
  -- error, a market order right behind it; or a market order behind the cancel.
  abbrev pub OneMarket :
      ℕ
      → Call
      → Call
      → String
      → String
      → Decimal
      → String
      → List Sent
      → Result Error OrderResponse × ExecutorState net.World
      → Result Error OrderResponse × ExecutorState net.World
      → Type 0
  OneMarket timeout limit cancel symbol side quantity id before first r =
      Grown NoPost (record { call = limit; accepted = accepted_of net first.0 } ∷ before) r.1.calls
      ⊎ (((e : ApiError) × (first.0 ≡ err (Error.api e))
            × Bought symbol side quantity id no_response
                (record { call = limit; accepted = false } ∷ before) r.1.calls)
          ⊎ BoughtRest net timeout limit cancel symbol side quantity id before first r.1.calls)

  module _ (timeout : ℕ) (limit : Call) (symbol side : String) (quantity : Decimal) (id : String)
      (before : List Sent) where
    abbrev cancel_entry : Call
    cancel_entry = order_call Method.delete (named_order symbol (client_order_id id "entry"))

    abbrev placed : List Sent
    placed = record { call = limit; accepted = true } ∷ before

    abbrev Once :
        Result Error OrderResponse × ExecutorState net.World
        → Result Error OrderResponse × ExecutorState net.World
        → Type 0
    Once first r = OneMarket timeout limit cancel_entry symbol side quantity id before first r

    after_polls-Once :
        (answer : OrderResponse) (s1 : ExecutorState net.World) (p : Polled)
        (s : ExecutorState net.World)
        → Grown NoPost placed s.calls
        → poll net
            (poll_fuel net timeout)
            symbol
            (client_order_id id "entry")
            (net.now s1.world + timeout)
            s1
          ≡ (ok p, s)
        → Once (ok answer, s1) (after_polls net symbol side quantity id p s)
    unfolding after_polls cancel_order_status send
    after_polls-Once answer s1 (Polled.filled status) s g polls = inl g
    after_polls-Once answer s1 (Polled.unfilled status) s g polls =
        let m = cancel_order_status net false symbol (client_order_id id "entry") in
        let more : Grown NoPost placed (m s).1.calls =
          Grown-trans NoPost _ _ _ g (Grown-one NoPost _ s.calls (λ q. cc q)) in
        >>=-rule (Once (ok answer, s1)) m
          (λ cancelled. market_rest net symbol side quantity id (final_status net status cancelled))
          s (λ e h. inl more)
          (λ cancelled h.
            elim (market_rest-Bought symbol side quantity id (final_status net status cancelled)
              (m s).1) [
                | inl same ↦ inl (subst (Grown NoPost placed) (sym same) more)
                | inr bought ↦ inr (
                    inr (record {
                      response = answer;
                      answered = refl;
                      polled = status;
                      at = s;
                      polls = polls;
                      quiet = g;
                      cancelled = cancelled;
                      cancels = h;
                      known = final_status net status cancelled;
                      knows = final_status-Known status cancelled;
                      bought =
                          subst
                            (λ a.
                              Bought symbol side quantity id (final_status net status cancelled)
                                (record { call = cancel_entry; accepted = a } ∷ s.calls)
                                (market_rest net symbol side quantity id
                                  (final_status net status cancelled) (m s).1).1.calls)
                            (ap (accepted_of net) h) bought;
                    }))
              ])

    after_limit-Once :
        (answer : Result Error OrderResponse) (s : ExecutorState net.World)
        → s.calls ≡ record { call = limit; accepted = accepted_of net answer } ∷ before
        → Once (answer, s) (after_limit net timeout symbol side quantity id answer s)
    unfolding after_limit rest_from time_now
    after_limit-Once (ok answer) s h =
        let entry = client_order_id id "entry" in
        let deadline = net.now s.world + timeout in
        let m = poll net (poll_fuel net timeout) symbol entry deadline in
        let quiet : Grown NoPost placed (m s).1.calls =
          subst (λ l. Grown NoPost l (m s).1.calls) h
            (poll-Quiet net symbol entry deadline (poll_fuel net timeout) s) in
        >>=-rule (Once (ok answer, s)) m (after_polls net symbol side quantity id) s
          (λ e k. inl quiet)
          (λ p k. after_polls-Once answer s p (m s).1 quiet (λ i. (k i, (m s).1)))
    after_limit-Once (err (Error.api e)) s h =
        elim (market_rest-Bought symbol side quantity id no_response s) [
          | inl same ↦ inl (subst (Grown NoPost _) (sym (same ∙ h)) (Grown-self NoPost _))
          | inr bought ↦ inr (
              inl (
                e,
                refl,
                subst
                    (λ l.
                      Bought symbol side quantity id no_response l
                        (market_rest net symbol side quantity id no_response s).1.calls)
                    h bought,
              ))
        ]
    after_limit-Once (err e) s h = inl (subst (Grown NoPost _) (sym h) (Grown-self NoPost _))

-- `makerFirstEntry` places its limit order once and a market order at most once, in two cases only.
-- Where the limit order was answered by an HTTP error status, whichever it is, the market is asked
-- right behind for all of the quantity, nothing being told as executed. Where it was accepted and the
-- polls came to the deadline without its fill, and the cancel right behind the polls was accepted, the
-- market is asked for the quantity less what the answer to the cancel tells as executed, or less what
-- the last poll told where that answer has no quantity, and only where this is positive. Where the
-- answer to the limit order was lost, nothing else is placed.
pub maker_first_entry-OneMarket :
    (net : Network) (timeout : ℕ) (symbol side : String) (price quantity : Decimal) (id : String)
    → (s : ExecutorState net.World)
    → let params = limit_params symbol side price quantity (client_order_id id "entry") in
      OneMarket net timeout
        (order_call Method.post params)
        (order_call Method.delete (named_order symbol (client_order_id id "entry")))
        symbol
        side
        quantity
        id
        s.calls
        (new_order net params s)
        (maker_first_entry net timeout symbol side price quantity id s)
unfolding maker_first_entry new_order send
maker_first_entry-OneMarket net timeout symbol side price quantity id s =
    let params = limit_params symbol side price quantity (client_order_id id "entry") in
    let r = new_order net params s in
    after_limit-Once net timeout (order_call Method.post params) symbol side quantity id s.calls r.0
      r.1 refl
