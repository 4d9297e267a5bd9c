-- ===== src/Binance/Request.antt =====
-- internal/exchange/binance/executor.go: the requests, `signedRequest`, `publicRequest` and `do`, and
-- the functions with one request each. A request stands for its address: the encoding, the window of
-- 5000 and the signature follow from the call and the time.
use joinanny.Base.{
  ℕ, String, Bool, true, false, ◌||◌, Option, none, some, List, [], ◌∷◌, leb, if◌then◌else◌,
}
use joinanny.Base.Int.{ℤ, negsuc}
use joinanny.Base.Text.{trim_space}
use text.Mathlib.Text.{◌==◌ as str_eq}
use joinanny.Decimal.{new_from_int, is_eq, cmp_ℤ}
use joinanny.Decimal.Text.{to_string}
use joinanny.Binance.{
  Method, Call, ApiError, Error, OrderResponse, AlgoOrderResponse, AlgoOpenOrder, PositionRisk,
  UserTradeRow, ExecutorConfig, Network, Sent, ExecutorState,
}
use joinanny.Binance.Exec.{Result, ok, err, Exec, pure, ◌>>◌}

-- `executor.validateConfig`.
unfoldable pub config_result : ExecutorConfig → Result Error (Unit {0})
config_result cfg =
    if str_eq (trim_space cfg.api_key) "" || str_eq (trim_space cfg.api_secret) ""
    then err Error.no_keys
    else if str_eq (trim_space cfg.base_url) ""
    then err Error.no_base_url
    else if cfg.real_trading_enabled
    then err Error.live_not_wired
    else if cfg.testnet
    then ok tt
    else err Error.not_testnet

-- `strconv.Itoa`.
unfoldable pub itoa : ℤ → String
itoa n = to_string (new_from_int n)

unfoldable pub api_error_of : ℕ → ℤ × String → String → ApiError
api_error_of status (code, message) body = record {
  status_code = status;
  code = code;
  message = if str_eq message "" then body else message;
}

abbrev pub or_undecoded : {A : Type 0} → Option A → Result Error A
or_undecoded none = err Error.undecoded
or_undecoded (some a) = ok a

module _ (net : Network) where
  open net use {World, Body, now, round_trip, error_fields, body_text}

  abbrev pub Action : Type 0 → Type 0
  Action A = Exec (ExecutorState World) Error A

  -- `do` behind `client.Do`: the status, then the body.
  unfoldable pub result_of : {A : Type 0} → (Body → Option A) → Option (ℕ × Body) → Result Error A
  result_of decode none = err Error.transport
  result_of decode (some (status, body)) =
      if leb 400 status
      then err (Error.api (api_error_of status (error_fields body) (body_text body)))
      else or_undecoded (decode body)

  abbrev pub accepted_of : {A : Type 0} → Result Error A → Bool
  accepted_of (ok a) = true
  accepted_of (err e) = false

  -- `do`.
  unfoldable pub send : {A : Type 0} → Bool → Option ℕ → Call → (Body → Option A) → Action A
  unfolding result_of
  send detached signed_at call decode s =
      let (answer, w) = round_trip detached signed_at call s.world in
      let result = result_of decode answer in
      let sent : Sent = record { call = call; accepted = accepted_of result } in
      (result, record s { world = w; calls = sent ∷ s.calls })

  abbrev pub public_request : {A : Type 0} → Call → (Body → Option A) → Action A
  public_request call decode = send false none call decode

  -- `signedRequest`, with the caller's context or with one of its own.
  unfoldable pub signed_request_in : {A : Type 0} → Bool → Call → (Body → Option A) → Action A
  unfolding send
  signed_request_in detached call decode s = send detached (some (now s.world)) call decode s

  abbrev pub signed_request : {A : Type 0} → Call → (Body → Option A) → Action A
  signed_request call decode = signed_request_in false call decode

abbrev pub order_call : Method → List (String × String) → Call
order_call m params = record { method = m; path = "/fapi/v1/order"; params = params }

abbrev pub algo_call : Method → List (String × String) → Call
algo_call m params = record { method = m; path = "/fapi/v1/algoOrder"; params = params }

abbrev pub named_order : String → String → List (String × String)
named_order symbol id = ("symbol", symbol) ∷ ("origClientOrderId", id) ∷ []

abbrev pub margin_call : String → String → Call
margin_call symbol margin_type = record {
  method = Method.post;
  path = "/fapi/v1/marginType";
  params = ("symbol", symbol) ∷ ("marginType", margin_type) ∷ [];
}

abbrev pub leverage_call : String → ℤ → Call
leverage_call symbol leverage = record {
  method = Method.post;
  path = "/fapi/v1/leverage";
  params = ("symbol", symbol) ∷ ("leverage", itoa leverage) ∷ [];
}

abbrev pub open_algo_call : String → Call
open_algo_call symbol = record {
  method = Method.get;
  path = "/fapi/v1/openAlgoOrders";
  params = ("symbol", symbol) ∷ [];
}

abbrev pub position_call : String → Call
position_call symbol = record {
  method = Method.get;
  path = "/fapi/v3/positionRisk";
  params = if str_eq symbol "" then [] else ("symbol", symbol) ∷ [];
}

-- Without a start the time is left out.
abbrev pub trades_call : String → Option ℤ → Call
trades_call symbol since = record {
  method = Method.get;
  path = "/fapi/v1/userTrades";
  params = elim since [
    | none ↦ ("symbol", symbol) ∷ ("limit", "1000") ∷ []
    | some t ↦ ("symbol", symbol) ∷ ("limit", "1000") ∷ ("startTime", itoa t) ∷ []
  ];
}

-- An answer that is read into a map, of which nothing is used.
abbrev pub anything : Bool → Option (Unit {0})
anything true = some tt
anything false = none

-- The code -4046: the margin type is that already.
unfoldable pub margin_unchanged : Result Error (Unit {0}) → Result Error (Unit {0})
margin_unchanged (ok a) = ok tt
margin_unchanged (err (Error.api e)) =
    if is_eq (cmp_ℤ e.code (negsuc 4045)) then ok tt else err (Error.api e)
margin_unchanged (err e) = err e

module _ (net : Network) where
  open net use {
    decode_any, decode_order, decode_algo, decode_algo_orders, decode_positions, decode_trades,
  }

  unfoldable pub new_order : List (String × String) → Action net OrderResponse
  unfolding signed_request_in
  new_order params = signed_request net (order_call Method.post params) decode_order

  unfoldable pub query_order : String → String → Action net OrderResponse
  unfolding signed_request_in
  query_order symbol id =
      signed_request net (order_call Method.get (named_order symbol id)) decode_order

  unfoldable pub cancel_order_status : Bool → String → String → Action net OrderResponse
  unfolding signed_request_in
  cancel_order_status detached symbol id =
      signed_request_in net detached (order_call Method.delete (named_order symbol id)) decode_order

  unfoldable pub cancel_order : Bool → String → String → Action net (Unit {0})
  unfolding cancel_order_status
  cancel_order detached symbol id = cancel_order_status detached symbol id >> pure tt

  unfoldable pub new_algo_order : List (String × String) → Action net AlgoOrderResponse
  unfolding signed_request_in
  new_algo_order params = signed_request net (algo_call Method.post params) decode_algo

  unfoldable pub cancel_algo_order : String → Action net (Unit {0})
  unfolding signed_request_in
  cancel_algo_order id =
      signed_request net (algo_call Method.delete (("clientAlgoId", id) ∷ []))
        (λ b. anything (decode_any b))

  unfoldable pub change_margin_type : String → String → Action net (Unit {0})
  unfolding signed_request_in margin_unchanged
  change_margin_type symbol margin_type s =
      let (r, s') =
        signed_request net (margin_call symbol margin_type) (λ b. anything (decode_any b)) s in
      (margin_unchanged r, s')

  unfoldable pub change_leverage : String → ℤ → Action net (Unit {0})
  unfolding signed_request_in
  change_leverage symbol leverage =
      signed_request net (leverage_call symbol leverage) (λ b. anything (decode_any b))

  unfoldable pub open_algo_orders : String → Action net (List AlgoOpenOrder)
  unfolding signed_request_in
  open_algo_orders symbol = signed_request net (open_algo_call symbol) decode_algo_orders

  unfoldable pub position_risk : String → Action net (List PositionRisk)
  unfolding signed_request_in
  position_risk symbol = signed_request net (position_call symbol) decode_positions

  unfoldable pub user_trades : String → Option ℤ → Action net (List UserTradeRow)
  unfolding signed_request_in
  user_trades symbol since = signed_request net (trades_call symbol since) decode_trades
