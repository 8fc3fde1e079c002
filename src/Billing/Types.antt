-- ===== src/Billing/Types.antt =====
-- The types of the billing service (internal/billing/types.go, webhook.go, errors.go, service.go)
-- and the small functions of helpers.go.
use kartochki_online_backend.Prelude.{ℕ, String, Option, List, str_eq, if◌then◌else◌}
use kartochki_online_backend.Prelude.Int.{ℤ}
use kartochki_online_backend.Prelude.Text.{trim_space}
use kartochki_online_backend.Calendar.{Time, month_start, add_date}
use kartochki_online_backend.Provider.{Uuid, PlanPeriod, monthly, yearly, other_period}
use kartochki_online_backend.Environment.{Environment}
use kartochki_online_backend.Database.{PaymentKind}

-- The numbers of a GenerationLimitExceededError.
pub record LimitExceeded : Type 0 where
  pub cards_limit : ℕ
  pub reserved_cards : ℕ
  pub requested_cards : ℤ
  pub period_end : Time

-- The errors that the callers tell apart; `wrapped` is any other, by the text that wraps it.
pub data Error : Type 0 where
  user_not_found free_plan_not_found plan_not_found addon_not_found : Error
  invalid_plan_period plan_already_active : Error
  checkout_provider_failed checkout_persistence_failed checkout_preparation_failed : Error
  checkout_email_required checkout_email_invalid checkout_email_taken : Error
  subscription_not_cancelable payment_method_not_found : Error
  generation_limit_exceeded : LimitExceeded → Error
  wrapped : String → Error

pub data WebhookEventType : Type 0 where
  payment_succeeded payment_canceled : WebhookEventType
  other_event : String → WebhookEventType

pub record WebhookPaymentCard : Type 0 where
  pub last4 : String
  pub card_type : String
  pub expiry_month : String
  pub expiry_year : String

-- WebhookEvent with its Amount and Metadata. `kind` is `Metadata.Type`.
pub record WebhookEvent : Type 0 where
  pub provider_payment_id : String
  pub provider_payment_method_id : String
  pub payment_method_type : String
  pub payment_method_card : Option WebhookPaymentCard
  pub event_type : WebhookEventType
  pub paid_at : Option Time
  pub amount_value : List ℕ
  pub amount_currency : String
  pub user_id : String
  pub plan_code : String
  pub addon_code : String
  pub period : PlanPeriod
  pub kind : PaymentKind

abbrev pub free_plan_code : String
free_plan_code = "free"

abbrev pub checkout_currency_rub : String
checkout_currency_rub = "RUB"

abbrev pub provider_yookassa : String
provider_yookassa = "yookassa"

-- PlanPeriod(text)
unfoldable pub plan_period_of : String → PlanPeriod
plan_period_of s =
    if str_eq s "monthly" then monthly else if str_eq s "yearly" then yearly else other_period s

unfoldable pub parse_user_id : Environment → String → Option Uuid
parse_user_id env s = env.parse_uuid (trim_space s)

-- The first moment of the month, and of the next one.
pub record Period : Type 0 where
  pub start : Time
  pub end_at : Time

unfoldable pub current_month_period : Time → Period
current_month_period now = record {
  start = month_start now;
  end_at = add_date (month_start now) 0 1;
}
