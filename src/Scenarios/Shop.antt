-- ===== src/Scenarios/Shop.antt =====
-- The data of the runs: a plan of 30 cards, two users, the third of a world whose clock stands at
-- 10 March 2024.
use kartochki_online_backend.Prelude.{
  ℕ, ◌*◌, Bool, true, false, String, Option, none, some, List, [], ◌∷◌, str_eq, if◌then◌else◌,
}
use kartochki_online_backend.Prelude.Text.{concat_all, codes}
use kartochki_online_backend.Calendar.{Time}
use kartochki_online_backend.Provider.{CheckoutSession, Uuid, CheckoutProvider, monthly}
use kartochki_online_backend.Environment.{Environment}
use kartochki_online_backend.Database.{
  addon_payment, AddonProduct, User, Plan, Subscription, active, Payment, PaymentKind,
  subscription_payment, awaiting, Generation, completed, Db,
}
use kartochki_online_backend.World.{World}
use kartochki_online_backend.Billing.Types.{payment_succeeded, WebhookEvent, WebhookEventType}

abbrev uuid_of : String → Option Uuid
uuid_of s = if str_eq s "anna" then some 1 else if str_eq s "boris" then some 2 else none

abbrev pub environment : Environment
environment = record {
  parse_uuid = uuid_of;
  print_uuid = λ id. "uuid";
  to_lower = λ s. s;
  parse_address = λ s. some s;
  sha256_hex = λ s. s;
  rfc3339 = λ t. "2024-03-10T00:00:00Z";
  bcrypt_hash = λ salt password. some password;
  bcrypt_matches = λ hash password. str_eq hash password;
  clean_path = λ s. s;
  join_path = λ parts. concat_all parts;
  base_path = λ s. s;
  two_digits = λ n. "01";
}

abbrev pub plan_session : CheckoutSession
plan_session = record { provider_payment_id = "p-plan"; checkout_url = "https://pay/1" }

abbrev pub addon_session : CheckoutSession
addon_session = record { provider_payment_id = "p-addon"; checkout_url = "https://pay/2" }

abbrev pub provider : CheckoutProvider
provider = record {
  create_subscription_checkout = λ _. some plan_session;
  create_addon_checkout = λ _. some addon_session;
  create_recurring_payment =
      λ _. some (record { provider_payment_id = "p-again"; checkout_url = "" });
}

-- 10 March 2024 is day 738954.
abbrev pub noon : Time
noon = 63845712000000000000

abbrev user : Uuid → Option String → User
user id email = record {
  id = id;
  email = email;
  password_hash = none;
  name = "";
  email_verified_at = none;
  created_at = 1;
}

abbrev pub anna : User
anna = user 1 (some "anna@example.com")

abbrev pub plan : Plan
plan = record {
  id = 10;
  code = "pro";
  name = "Pro";
  monthly_price = 990;
  yearly_monthly_price = some 790;
  cards_per_month = 30;
  is_popular = false;
  is_active = true;
  created_at = 1;
}

abbrev addon : AddonProduct
addon = record {
  id = 15;
  code = "pack";
  title = "Pack";
  description = "";
  price = 290;
  cards_count = 10;
  is_active = true;
  created_at = 1;
}

abbrev pub subscription : Subscription
subscription = record {
  id = 20;
  user_id = 1;
  plan_id = 10;
  status = active;
  provider = "yookassa";
  provider_subscription_id = some "card-1";
  has_payment_method = true;
  started_at = 63843033600000000000;
  current_period_start = 63845280000000000000;
  current_period_end = 63847958400000000000;
  renews_at = some 63847958400000000000;
  cancels_at = none;
  ended_at = none;
  created_at = 63843033600000000000;
  payment_method_type = none;
  payment_method_last4 = none;
  payment_method_card_type = none;
  payment_method_expiry_month = none;
  payment_method_expiry_year = none;
}

abbrev pub pending_payment : Payment
pending_payment = record {
  id = 30;
  user_id = 2;
  subscription_id = none;
  addon_product_id = none;
  provider = "yookassa";
  provider_payment_id = some "p-1";
  kind = subscription_payment;
  status = awaiting;
  amount = kartochki_online_backend.Prelude.Int.ℤ.pos 990;
  currency = "RUB";
  checkout_url = none;
  paid_at = none;
  created_at = 63845700000000000000;
}

abbrev generation : Uuid → ℕ → Time → Generation
generation id cards created_at = record {
  id = id;
  user_id = 1;
  project_id = 70;
  source_asset_id = 71;
  marketplace_id = "ozon";
  style_id = "clean_catalog";
  card_count = cards;
  status = completed;
  current_step = "completed";
  progress_percent = 100;
  error_message = "";
  archive_asset_id = none;
  started_at = some created_at;
  finished_at = some created_at;
  created_at = created_at;
  model_id = "openai/gpt-5-image";
}

abbrev pub db : Db
db = record {
  users = anna ∷ user 2 none ∷ [];
  sessions = [];
  password_reset_tokens = [];
  pending_registrations = [];
  plans =
      plan
      ∷ record plan { id = 11; code = "max"; name = "Max"; yearly_monthly_price = some 1990 }
      ∷ [];
  addon_products = addon ∷ [];
  subscriptions = subscription ∷ [];
  usage_quotas = [];
  payments = pending_payment ∷ [];
  generations = generation 40 25 63845400000000000000 ∷ [];
  generation_card_types = [];
  generated_cards = [];
  assets = [];
  product_contexts = [];
  projects = [];
  next_id = 100;
}

abbrev pub world : World
world = record {
  db = db;
  clock = noon;
  ticks = 5 ∷ 7 ∷ [];
  tx_start = none;
  faults = [];
  outbox = [];
  files = [];
}

abbrev pub event : WebhookEventType → PaymentKind → String → WebhookEvent
event type kind id = record {
  provider_payment_id = id;
  provider_payment_method_id = "card-2";
  payment_method_type = "bank_card";
  payment_method_card = none;
  event_type = type;
  paid_at = none;
  amount_value = codes "990.00";
  amount_currency = "RUB";
  user_id = "boris";
  plan_code = "pro";
  addon_code = "";
  period = monthly;
  kind = kind;
}

-- Boris has a quota for March, and buys an addon.
abbrev pub stocked : World
stocked = record world {
  db = record db {
    usage_quotas =
        record {
          id = 50;
          user_id = 2;
          subscription_id = 21;
          period_start = 63845280000000000000;
          period_end = 63847958400000000000;
          cards_limit = 30;
          cards_used = 0;
          created_at = 1;
        }
        ∷ [];
  };
}

abbrev pub addon_event : WebhookEvent
addon_event = record (event payment_succeeded addon_payment "p-2") { addon_code = "pack" }
