-- ===== src/Orders/Service/Prepare.antt =====
-- internal/orders/service.go: `prepare`, which makes a confirmation of an intent. The random ids, the
-- hash of the intent and the answers of the intent store and of the audit recorder are parameters.
pub mod Lifetime
use Prim.Native.String.{◌++◌ as join}
use joinanny.Base.{ℕ, ◌+◌, String, Option, none, some, if◌then◌else◌}
use joinanny.Base.Text.{trim_space}
use text.Mathlib.Text.{◌==◌ as str_eq}
use joinanny.Domain.{Intent, is_exchange_changing}
use joinanny.Orders.Store.{Confirmation, ConfirmationStatus, StoreError, Store, put}

pub data Prepared : Type 0 where
  prepared : Confirmation → Prepared
  not_exchange_changing : Prepared
  failed_with : String → Prepared
  not_stored : StoreError → Prepared

-- What the outside answers: two ids and a hash (`none` is their error), then the errors of the intent
-- store and of the audit recorder.
pub record Answers : Type 0 where
  pub id : Option String
  pub correlation_id : Option String
  pub intent_hash : Option String
  pub intent_error : Option String
  pub audit_error : Option String

unfoldable pub idempotency_key_of : String → String → String
idempotency_key_of key id =
    if str_eq (trim_space key) "" then join "confirm:" id else trim_space key

-- The confirmation that `prepare` makes.
unfoldable pub new_confirmation :
    ℕ → ℕ → Intent → String → String → String → String → ℕ → Confirmation
new_confirmation ttl user intent key id correlation hash now = record {
  id = id;
  user_id = user;
  intent = intent;
  status = ConfirmationStatus.pending;
  correlation_id = correlation;
  intent_hash = hash;
  idempotency_key = idempotency_key_of key id;
  created_at = now;
  expires_at = now + ttl;
}

unfoldable pub audited_as : Confirmation → Option String → Prepared
audited_as c none = Prepared.prepared c
audited_as c (some e) = Prepared.failed_with e

unfoldable pub put_prepared :
    Confirmation → Option String → Option StoreError × Store → Prepared × Store
put_prepared c audit_error (some e, items) = (Prepared.not_stored e, items)
put_prepared c audit_error (none, items) = (audited_as c audit_error, items)

unfoldable pub store_prepared :
    Confirmation → Option String → Option String → Store → Prepared × Store
store_prepared c (some e) audit_error items = (Prepared.failed_with e, items)
store_prepared c none audit_error items = put_prepared c audit_error (put c items)

unfoldable pub prepare_with :
    ℕ
    → ℕ
    → Intent
    → String
    → Answers
    → ℕ
    → Option String
    → Option String
    → Option String
    → Store
    → Prepared × Store
prepare_with ttl user intent key a now (some id) (some correlation) (some hash) items =
    store_prepared (new_confirmation ttl user intent key id correlation hash now) a.intent_error
      a.audit_error items
prepare_with ttl user intent key a now _ _ _ items = (Prepared.failed_with "", items)

-- `prepare`.
unfoldable pub prepare : ℕ → ℕ → Intent → String → Answers → ℕ → Store → Prepared × Store
prepare ttl user intent key a now items =
    if is_exchange_changing intent
    then prepare_with ttl user intent key a now a.id a.correlation_id a.intent_hash items
    else (Prepared.not_exchange_changing, items)
