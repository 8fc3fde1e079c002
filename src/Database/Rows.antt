-- ===== src/Database/Rows.antt =====
-- The rows of the tables (internal/dbgen/models.go), and the database as the record of the tables.
-- A column of a nullable type is an `Option`. The columns `updated_at` are written and never read,
-- so they are left out.
use kartochki_online_backend.Prelude.{ℕ, Bool, String, Option, List}
use kartochki_online_backend.Prelude.Int.{ℤ}
use kartochki_online_backend.Calendar.{Time}
use kartochki_online_backend.Provider.{Uuid}

pub record User : Type 0 where
  pub id : Uuid
  pub email : Option String
  pub password_hash : Option String
  pub name : String
  pub email_verified_at : Option Time
  pub created_at : Time

pub record LoginSession : Type 0 where
  pub id : Uuid
  pub user_id : Uuid
  pub token_hash : String
  pub expires_at : Time
  pub revoked_at : Option Time
  pub created_at : Time
  pub user_agent : String
  pub ip_address : String

pub record PasswordResetToken : Type 0 where
  pub id : Uuid
  pub user_id : Uuid
  pub token_hash : String
  pub expires_at : Time
  pub used_at : Option Time
  pub created_at : Time

-- check (status in ('pending', 'verified', 'expired', 'blocked'))
pub data FlowStatus : Type 0 where
  pending verified expired blocked : FlowStatus

pub record PendingRegistration : Type 0 where
  pub id : Uuid
  pub email : String
  pub name : String
  pub password_hash : String
  pub verification_code_hash : String
  pub verification_expires_at : Time
  pub resend_available_at : Time
  pub attempt_count : ℕ
  pub resend_count : ℕ
  pub status : FlowStatus
  pub last_email_sent_at : Time
  pub created_ip_address : String
  pub created_at : Time
  pub completed_at : Option Time

pub record Plan : Type 0 where
  pub id : Uuid
  pub code : String
  pub name : String
  pub monthly_price : ℕ
  pub yearly_monthly_price : Option ℕ
  pub cards_per_month : ℕ
  pub is_popular : Bool
  pub is_active : Bool
  pub created_at : Time

pub record AddonProduct : Type 0 where
  pub id : Uuid
  pub code : String
  pub title : String
  pub description : String
  pub price : ℕ
  pub cards_count : ℕ
  pub is_active : Bool
  pub created_at : Time

-- check (status in ('active', 'scheduled_cancel', 'canceled'))
pub data SubscriptionStatus : Type 0 where
  active scheduled_cancel canceled : SubscriptionStatus

pub record Subscription : Type 0 where
  pub id : Uuid
  pub user_id : Uuid
  pub plan_id : Uuid
  pub status : SubscriptionStatus
  pub provider : String
  pub provider_subscription_id : Option String
  pub has_payment_method : Bool
  pub started_at : Time
  pub current_period_start : Time
  pub current_period_end : Time
  pub renews_at : Option Time
  pub cancels_at : Option Time
  pub ended_at : Option Time
  pub created_at : Time
  pub payment_method_type : Option String
  pub payment_method_last4 : Option String
  pub payment_method_card_type : Option String
  pub payment_method_expiry_month : Option String
  pub payment_method_expiry_year : Option String

pub record UsageQuota : Type 0 where
  pub id : Uuid
  pub user_id : Uuid
  pub subscription_id : Uuid
  pub period_start : Time
  pub period_end : Time
  pub cards_limit : ℕ
  pub cards_used : ℕ
  pub created_at : Time

-- The texts in `payments.kind`: the three constants of billing/service.go, and any other.
pub data PaymentKind : Type 0 where
  subscription_payment renewal_payment addon_payment : PaymentKind
  other_payment : String → PaymentKind

-- check (status in ('pending', 'paid', 'canceled'))
pub data PaymentStatus : Type 0 where
  awaiting paid void : PaymentStatus

pub record Payment : Type 0 where
  pub id : Uuid
  pub user_id : Uuid
  pub subscription_id : Option Uuid
  pub addon_product_id : Option Uuid
  pub provider : String
  pub provider_payment_id : Option String
  pub kind : PaymentKind
  pub status : PaymentStatus
  pub amount : ℤ
  pub currency : String
  pub checkout_url : Option String
  pub paid_at : Option Time
  pub created_at : Time

pub data GenerationStatus : Type 0 where
  queued processing completed failed_generation : GenerationStatus

pub record Generation : Type 0 where
  pub id : Uuid
  pub user_id : Uuid
  pub project_id : Uuid
  pub source_asset_id : Uuid
  pub marketplace_id : String
  pub style_id : String
  pub card_count : ℕ
  pub status : GenerationStatus
  pub current_step : String
  pub progress_percent : ℕ
  pub error_message : String
  pub archive_asset_id : Option Uuid
  pub started_at : Option Time
  pub finished_at : Option Time
  pub created_at : Time
  pub model_id : String

pub record GenerationCardType : Type 0 where
  pub generation_id : Uuid
  pub position : ℕ
  pub card_type_id : String

pub record GeneratedCard : Type 0 where
  pub id : Uuid
  pub generation_id : Uuid
  pub asset_id : Uuid
  pub card_type_id : String
  pub position : ℕ
  pub created_at : Time

-- check (kind in ('source_image', 'generated_card', 'archive', 'profile_avatar'))
pub data AssetKind : Type 0 where
  source_image generated_card archive profile_avatar : AssetKind

pub record Asset : Type 0 where
  pub id : Uuid
  pub user_id : Uuid
  pub kind : AssetKind
  pub storage_key : String
  pub original_filename : String
  pub mime_type : String
  pub size_bytes : ℕ
  pub created_at : Time

-- The JSON of the characteristics is kept as the list that it encodes.
pub record GenerationProductContext : Type 0 where
  pub id : Uuid
  pub generation_id : Uuid
  pub name : String
  pub category : Option String
  pub brand : Option String
  pub description : Option String
  pub benefits : List String
  pub characteristics : List (String × String)
  pub created_at : Time

-- check (status in ('draft', 'active', 'archived'))
pub data ProjectStatus : Type 0 where
  draft active_project archived : ProjectStatus

pub record Project : Type 0 where
  pub id : Uuid
  pub user_id : Uuid
  pub title : String
  pub marketplace : String
  pub product_name : String
  pub product_description : String
  pub status : ProjectStatus
  pub created_at : Time
  pub deleted_at : Option Time

pub record Db : Type 0 where
  pub users : List User
  pub sessions : List LoginSession
  pub password_reset_tokens : List PasswordResetToken
  pub pending_registrations : List PendingRegistration
  pub plans : List Plan
  pub addon_products : List AddonProduct
  pub subscriptions : List Subscription
  pub usage_quotas : List UsageQuota
  pub payments : List Payment
  pub generations : List Generation
  pub generation_card_types : List GenerationCardType
  pub generated_cards : List GeneratedCard
  pub assets : List Asset
  pub product_contexts : List GenerationProductContext
  pub projects : List Project
  pub next_id : Uuid
