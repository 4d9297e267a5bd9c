-- ===== src/Binance/Sending.antt =====
-- What the functions of internal/exchange/binance/executor.go add to the calls made so far.
use mathlib.Core.List.{append_assoc}
use joinanny.Base.{
  ◌≡◌, refl, sym, ap, ◌∙◌, inl, inr, List, [], ◌∷◌, ◌++◌, All, Option-cases, String, Bool,
}
use joinanny.Base.Lists.{All-append}
use joinanny.Binance.{Method, Sent, ExecutorConfig, Network, ExecutorState}
use joinanny.Binance.Request.{
  accepted_of, algo_call, order_call, named_order, position_call, cancel_order, cancel_order_status,
  new_algo_order, new_order, position_risk, cancel_algo_order, send, public_request,
}
use joinanny.Binance.Exec.{pure, >>=-rule}
use joinanny.Binance.Filters.{
  cached, keep_filters, fetch_filters, symbol_filters, exchange_info_call,
}
use joinanny.Base.Table.{lookup}

-- The later list is the earlier one with calls in front of it that all have a property.
pub record Grown (P : Sent → Type 0) (before after : List Sent) : Type 0 where
  pub new : List Sent
  pub added : after ≡ new ++ before
  pub all : All P new

pub Grown-self : (P : Sent → Type 0) (calls : List Sent) → Grown P calls calls
Grown-self P calls = record { new = []; added = refl; all = tt }

pub Grown-one : (P : Sent → Type 0) (c : Sent) (calls : List Sent) → P c → Grown P calls (c ∷ calls)
Grown-one P c calls h = record { new = c ∷ []; added = refl; all = (h, tt) }

pub Grown-trans : (P : Sent → Type 0) (a b c : List Sent) → Grown P a b → Grown P b c → Grown P a c
Grown-trans P a b c g h = record {
  new = h.new ++ g.new;
  added = h.added ∙ ap (λ l. h.new ++ l) g.added ∙ sym (append_assoc h.new g.new a);
  all = All-append P h.new g.new h.all g.all;
}

-- Each of these makes one call, which is accepted where there is no error.
module _ (net : Network) where
  pub new_algo_order-calls :
      (params : List (String × String)) (s : ExecutorState net.World)
      → let r = new_algo_order net params s in
        r.1.calls
        ≡ record { call = algo_call Method.post params; accepted = accepted_of net r.0 } ∷ s.calls
  unfolding new_algo_order send
  new_algo_order-calls params s = refl

  pub cancel_algo_order-calls :
      (id : String) (s : ExecutorState net.World)
      → let r = cancel_algo_order net id s in
        r.1.calls
        ≡ record {
          call = algo_call Method.delete (("clientAlgoId", id) ∷ []);
          accepted = accepted_of net r.0;
        }
          ∷ s.calls
  unfolding cancel_algo_order send
  cancel_algo_order-calls id s = refl

  pub new_order-calls :
      (params : List (String × String)) (s : ExecutorState net.World)
      → let r = new_order net params s in
        r.1.calls
        ≡ record { call = order_call Method.post params; accepted = accepted_of net r.0 } ∷ s.calls
  unfolding new_order send
  new_order-calls params s = refl

  pub position_risk-calls :
      (symbol : String) (s : ExecutorState net.World)
      → let r = position_risk net symbol s in
        r.1.calls ≡ record { call = position_call symbol; accepted = accepted_of net r.0 } ∷ s.calls
  unfolding position_risk send
  position_risk-calls symbol s = refl

  pub cancel_order-calls :
      (detached : Bool) (symbol id : String) (s : ExecutorState net.World)
      → (cancel_order net detached symbol id s).1.calls
        ≡ record {
          call = order_call Method.delete (named_order symbol id);
          accepted = accepted_of net (cancel_order_status net detached symbol id s).0;
        }
          ∷ s.calls
  unfolding cancel_order cancel_order_status send
  cancel_order-calls detached symbol id s =
      >>=-rule (λ r. r.1.calls ≡ (cancel_order_status net detached symbol id s).1.calls)
        (cancel_order_status net detached symbol id) (λ _. pure tt) s (λ e h. refl) (λ a h. refl)

module _ (net : Network) (cfg : ExecutorConfig) (P : Sent → Type 0) where
  fetch_filters-Grown :
      (symbol : String) (s : ExecutorState net.World)
      → ((accepted : Bool) → P (record { call = exchange_info_call; accepted = accepted }))
      → Grown P s.calls (fetch_filters net cfg symbol s).1.calls
  unfolding fetch_filters keep_filters send
  fetch_filters-Grown symbol s h =
      >>=-rule (λ r. Grown P s.calls r.1.calls)
        (public_request net exchange_info_call net.decode_exchange_info)
        (keep_filters net cfg symbol) s (λ x e. Grown-one P _ s.calls (h _))
        (λ infos e. Grown-one P _ s.calls (h _))

  -- The filters come from the cache or by one public call.
  pub symbol_filters-Grown :
      (symbol : String) (s : ExecutorState net.World)
      → ((accepted : Bool) → P (record { call = exchange_info_call; accepted = accepted }))
      → Grown P s.calls (symbol_filters net cfg symbol s).1.calls
  unfolding symbol_filters
  symbol_filters-Grown symbol s h =
      elim (Option-cases (
        cached (net.now s.world) cfg.exchange_info_cache_ttl s.filters_refreshed
          (lookup symbol s.filters))) [
            | inl e ↦ rw (e, symbol_filters) (fetch_filters-Grown symbol s h)
            | inr (f, e) ↦ rw (e, symbol_filters) (Grown-self P s.calls)
          ]

-- The states that questions about positions and filters and orders lead to.
pub data Reached (net : Network) (cfg : ExecutorConfig) (start : ExecutorState net.World)
    : ExecutorState net.World → Type 0 where
  started : Reached net cfg start start
  positioned :
      {s : ExecutorState net.World}
      → (symbol : String) → Reached net cfg start s
      → Reached net cfg start (position_risk net symbol s).1
  filtered :
      {s : ExecutorState net.World}
      → (symbol : String) → Reached net cfg start s
      → Reached net cfg start (symbol_filters net cfg symbol s).1
  ordered :
      {s : ExecutorState net.World}
      → (params : List (String × String)) → Reached net cfg start s
      → Reached net cfg start (new_order net params s).1
