-- ===== src/Lib.antt =====
-- A model of the core of kartochki-online-backend, and the proofs about it.
--
-- The program is the Go backend of a service that makes product cards. Its billing part
-- (internal/billing) sells plans and addons through a payment provider: a checkout asks the
-- provider for a payment and stores it as pending, a webhook of the provider marks it as paid and
-- activates what was bought, a job charges the stored card when a subscription is due. Its account
-- part (internal/auth) registers users by a code sent to their email, opens and closes sessions and
-- resets passwords. Its generation part (internal/generation) checks a request, asks billing
-- whether the cards fit the limit of the period, stores the generation and queues its work; a
-- background job asks an image model for the cards, stores them with an archive, and cleans up
-- after a failure. The state is the PostgreSQL database, which the services reach through the
-- statements of internal/dbgen, and the files on the disk.
--
-- The modules:
-- - Prelude: Boolean tests and lists on the native numbers, Go's `strings` functions, signed integers.
-- - Calendar: instants as nanoseconds since the year 1, the proleptic Gregorian calendar and
--   `AddDate`, with the proofs on it in Calendar/Laws.
-- - Provider, Environment: the payment provider and the functions of outside packages. They are
--   parameters of the definitions that use them.
-- - Database: the rows (internal/dbgen/models.go) and one function per statement, with the
--   constraints of db/migrations: what a check, a unique index or a foreign key refuses is a
--   refused reply. Catalog, Payments, Subscriptions and Quotas are billing.sql.go; Users is
--   users.sql.go; Registrations is pending_registrations.sql.go; Sessions is sessions.sql.go and
--   password_reset_tokens.sql.go; Generations and Progress are generation.sql.go, with the
--   insertion of projects.sql.go.
-- - World: a service call is a function from a world to a result and the next world; every
--   statement, begin, commit and request to the outside may fail, as the list of faults says.
--   World/Keeps, Yields, Returns, Rejects, Atomic and Clear are the rules for invariants, results,
--   errors, rollbacks and runs without faults; Runs has those for results that name the clock;
--   Recovers and Untouched are those for calls that go
--   on after an error, and for calls that change nothing.
-- - Storage: internal/platform/storage/storage.go. A path is cleaned by functions of filepath,
--   which are parameters; a file whose writing fails is taken to be left empty.
-- - Billing/Types, Amount, Periods: internal/billing/types.go, errors.go, helpers.go, the amounts of
--   webhook_payments.go and of internal/platform/yookassa/yookassa.go, the periods.
-- - Billing/Webhook: internal/billing/webhook.go and webhook_payments.go.
-- - Billing/Quota: internal/billing/quota.go. Billing/Checkout: internal/billing/checkout.go.
--   Billing/Subscriptions: internal/billing/subscriptions.go and payment_method.go.
-- - Auth/Types: internal/auth/errors.go, session.go, password.go and the records of service.go.
--   Auth/Registration and Auth/Verification: register_verification.go and
--   register_verification_support.go. Auth/Sessions and Auth/Passwords: service.go. Auth/Calls runs
--   any sequence of these calls, and the other modules of Auth hold the proofs: Atomic on failing
--   calls, Attempts on the attempts of a code, Verified on a verification, and Sessions/Store,
--   Refined, Changes and Refines on the abstract store of live sessions.
-- - Generation/Types: internal/generation/types.go and errors.go; Catalog: config.go; Validation:
--   validation.go, with its proofs in Validation/Bounds and Validation/CardTypes; Create:
--   `Service.Create` of service.go and the titles of file_helpers.go. Prompt: prompt.go;
--   Persistence: persistence.go; Cleanup and Worker: worker.go. The other modules of
--   Generation/Worker hold the proofs: Ends on jobs that return, Again on jobs that come twice,
--   Statements and Progress on the progress of a generation.
-- - Scenarios: runs on concrete data and the theorems applied to them.
--
-- Names follow the source: `handlePaymentSucceeded` is `handle_payment_succeeded`, and a function
-- that is split has its parts beside it. A `uuid` is a number that is only compared, so two ids
-- that the database makes are different. A text is a `String`, or its list of code points where
-- digits are read. Random tokens, the digits of a code and the salts of password hashes are
-- arguments of the calls that draw them; bcrypt and SHA-256 are parameters. Calls are run one after
-- another: two transactions at the same time, and the row locks that order them, are not modelled.
-- Times are instants, and the calendar is that of UTC, also where `renewalPeriod` adds a year to a
-- time in the zone of the process. Ids, sums and times are natural numbers; where Go converts to `int32` or adds `int`s the
-- wrap-around is written out. The sum of reserved cards is taken to fit PostgreSQL's `bigint`, and
-- the limit of the renewal job to fit an `int32`. `checkoutCustomerEmail` calls itself when another
-- request has set the email meanwhile; the model counts the calls by fuel 2, which is enough
-- because the second call finds an email that is set. The email queue of the account service and the limits of the
-- generation service are taken to be configured; the queue of the generation service may be absent.
-- The title that `buildProjectTitle` cuts after 200 bytes may end inside a code point: the cut is
-- then no text, and the statement that gets it fails; so with the error message that
-- `trimErrorMessage` cuts after 500 bytes. The image model answers as a function of its input.
--
-- Not modelled: the billing screen and the catalog seeding (internal/billing/read.go,
-- internal/billing/catalog.go), the login by other providers and avatars (internal/auth/oauth.go,
-- oauth_vk_oauth.go, oauth_vk_widget.go, telegram.go, avatar.go), the labels and prices of the
-- generation catalog, the upload of images and the status of a generation, the HTTP layer, the
-- queues, the clients of other systems, and the services of internal/projects, internal/settings
-- and internal/blog.
pub mod Prelude
pub mod Calendar
pub mod Provider
pub mod Environment
pub mod Database
pub mod World
pub mod Storage
pub mod Billing
pub mod Auth
pub mod Generation
mod Scenarios
