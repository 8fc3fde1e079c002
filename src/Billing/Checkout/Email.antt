-- ===== src/Billing/Checkout/Email.antt =====
-- The function calls itself at most once (internal/billing/checkout.go, checkoutCustomerEmail).
use kartochki_online_backend.Prelude.{◌≡◌, refl, ℕ, suc, String}
use kartochki_online_backend.Prelude.Text.{trim_space}
use kartochki_online_backend.Provider.{Uuid}
use kartochki_online_backend.Environment.{Environment}
use kartochki_online_backend.World.{World, M, ◌>>=◌}
use kartochki_online_backend.Billing.Types.{Error}
use kartochki_online_backend.Billing.Checkout.{checkout_customer_email, save_checkout_email}

-- Without a requested email the next call is not reached.
save-empty :
    (env : Environment) (user : Uuid) (again other : M Error String)
    → save_checkout_email env user "" again ≡ save_checkout_email env user "" other
unfolding save_checkout_email ◌>>=◌
save-empty env user again other = refl

again-stable :
    (env : Environment) (user : Uuid) (fuel : ℕ)
    → env.to_lower "" ≡ ""
    → checkout_customer_email env (suc fuel) user "" ≡ checkout_customer_email env 1 user ""
unfolding checkout_customer_email trim_space
again-stable env user fuel lower =
    rw
      (
        lower,
        save-empty env user (checkout_customer_email env fuel user "")
            (checkout_customer_email env 0 user ""),
      )
      refl

-- Two calls are always enough: when lowering the empty text gives the empty text, fuel beyond 2
-- changes nothing, whatever the database does.
pub checkout_customer_email-fuel :
    (env : Environment) (fuel : ℕ) (user : Uuid) (requested : String) (w : World)
    → env.to_lower "" ≡ ""
    → checkout_customer_email env (suc (suc fuel)) user requested w
      ≡ checkout_customer_email env 2 user requested w
unfolding checkout_customer_email
checkout_customer_email-fuel env fuel user requested w lower =
    rw (again-stable env user fuel lower) refl
