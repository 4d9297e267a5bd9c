-- ===== src/Binance/Opening/Fits.antt =====
-- The rounding and the checks of `executeOpen` of internal/exchange/binance/executor.go.
use joinanny.Base.{◌≡◌, refl, subst, true, false, arith}
use joinanny.Decimal.{Decimal, is_lt, is_zero, is_positive, cmp, mul, floor_to_step}
use joinanny.Domain.{OpenIntent}
use joinanny.Binance.{Error, SymbolFilters}
use joinanny.Binance.Exec.{Result, ok, err, ok_injective}
use joinanny.Binance.Filters.{of_exact, or_error}
use joinanny.Binance.Quantity.Rounding.{Rounded, floor_to_step-Rounded}
use joinanny.Binance.Quantity.{sized, open_quantity, validate_quantity_and_notional}
use joinanny.Binance.Opening.{OpenPlan, plan_open}

-- A chain of results that ends well, step by step.
pub or_error-rule :
    {A B : Type 0} {P : Type 0} (r : Result Error A) (f : A → Result Error B) (b : B)
    → or_error r f ≡ ok b
    → ((a : A) → r ≡ ok a → f a ≡ ok b → P)
    → P
or_error-rule (ok a) f b h goal = goal a refl h
or_error-rule (err e) f b h goal = absurd (cc h)

-- What the checked plan of an opening promises about the symbol's filters.
pub record Fits (intent : OpenIntent) (target : Decimal) (filters : SymbolFilters) (plan : OpenPlan)
    : Type 0 where
  pub entry : Rounded intent.entry filters.tick_size plan.entry
  pub stop_loss : Rounded intent.stop_loss filters.tick_size plan.stop_loss
  pub take_profit : Rounded target filters.tick_size plan.take_profit
  pub requested : Decimal
  pub asked : sized intent.size.kind intent.size.amount plan.entry ≡ ok requested
  pub quantity : Rounded requested filters.step_size plan.quantity
  pub some_quantity : is_zero plan.quantity ≡ false
  pub min_qty : is_lt (cmp plan.quantity filters.min_qty) ≡ false
  pub min_notional :
      is_positive filters.min_notional ≡ true
      → is_lt (cmp (mul plan.quantity plan.entry) filters.min_notional) ≡ false

validated :
    (quantity price : Decimal) (filters : SymbolFilters)
    → validate_quantity_and_notional quantity price filters ≡ ok tt
    → (is_zero quantity ≡ false)
      × (is_lt (cmp quantity filters.min_qty) ≡ false)
      × (is_positive filters.min_notional ≡ true
          → is_lt (cmp (mul quantity price) filters.min_notional) ≡ false)
unfolding validate_quantity_and_notional
validated quantity price filters h = (ground arith, ground arith, λ k. ground arith)

-- A plan that passes the checks of `executeOpen`: each price is the greatest multiple of the tick size
-- that does not pass the intent's price, the quantity is the greatest multiple of the step size within
-- the size asked for, it is not 0 and not below the least quantity, and its value at the rounded entry
-- is not below the least notional where the symbol has one.
pub plan_open-Fits :
    (intent : OpenIntent) (target : Decimal) (filters : SymbolFilters) (plan : OpenPlan)
    → plan_open intent target filters ≡ ok plan
    → Fits intent target filters plan
unfolding plan_open open_quantity
plan_open-Fits intent target filters plan h =
    or_error-rule (of_exact (floor_to_step intent.entry filters.tick_size)) _ plan h (λ entry e h1.
      or_error-rule (of_exact (floor_to_step intent.stop_loss filters.tick_size)) _ plan h1
        (λ stop_loss f h2.
          or_error-rule (of_exact (floor_to_step target filters.tick_size)) _ plan h2
            (λ take_profit g h3.
              or_error-rule (open_quantity intent entry filters) _ plan h3 (λ quantity q h4.
                or_error-rule (sized intent.size.kind intent.size.amount entry) _ quantity q
                  (λ requested a r.
                    or_error-rule (validate_quantity_and_notional quantity entry filters) _ plan h4
                      (λ done v h5.
                        let (something, least, notional) = validated quantity entry filters v in
                        subst (Fits intent target filters) (ok_injective _ plan h5) (record {
                          entry = floor_to_step-Rounded intent.entry filters.tick_size entry e;
                          stop_loss =
                              floor_to_step-Rounded intent.stop_loss filters.tick_size stop_loss f;
                          take_profit =
                              floor_to_step-Rounded target filters.tick_size take_profit g;
                          requested = requested;
                          asked = a;
                          quantity = floor_to_step-Rounded requested filters.step_size quantity r;
                          some_quantity = something;
                          min_qty = least;
                          min_notional = notional;
                        })))))))
