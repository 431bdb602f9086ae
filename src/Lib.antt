-- ===== src/Lib.antt =====
-- A model of the backend of My Detail OS, a multi-tenant service for car workshops: who may call what,
-- how documents of every organization share one table, and how money and points move.
--
-- A request passes the gates of src/middleware/auth.ts, which check its token, its studio and the
-- permission that the route needs. A collection's document is then read or written by the JSON
-- store (src/modules/collections/app-json-store.ts), behind the guards of the domain service that
-- owns the collection, and lists are cut to the branches that the user may see. Saved invoices move
-- the customer's wallet, and paid subscriptions move referral points.
--
-- What each file models:
--   Access/Roles        src/lib/rbac.ts
--   Access/Keys         src/constants/permission-keys.ts
--   Access/Resolver     src/middleware/auth.ts, `hasPermissionForMethod`
--   Access/Gates/Checks src/middleware/auth.ts, the gates; `requireCollectionPermission` of
--                       src/modules/collections/collection.routes.ts; proofs in Access/Gates
--   Access/Collections  src/constants/json-collections.ts, src/constants/collection-permissions.ts
--   Access/Staff        src/lib/staff-access.ts
--   Scope               src/lib/data-scope.ts; proofs in Scope/Hidden, Scope/Nested, Scope/Caller
--   Store, Store/Rows   src/modules/collections/app-json-store.ts and the table AppJsonRow;
--                       in Store/Context its guards, and `logBusinessActivity` of
--                       src/services/activity-logger.service.ts;
--                       proofs in Store/Isolation, Store/ReadBack,
--                       Store/Snapshot
--   Wallet              src/modules/invoices/wallet-sync.service.ts; proofs in Wallet/Balance,
--                       Wallet/Ledger, Wallet/Resync
--   CashBank            src/modules/collections/cash-bank.service.ts; proofs in CashBank/History
--   JobCards/Pricing    src/lib/job-card-pricing-guard.ts
--   JobCards            src/modules/job-cards/job-cards.service.ts; proofs in JobCards/Delta, JobCards/Guarded
--   Referrals/Codes     src/lib/platform-referral.ts
--   Referrals           src/modules/organization/referral-wallet.service.ts; proofs in
--                       Referrals/Commit, Referrals/Ledger, Referrals/Once
--   Inspections/Conditions, Inspections/Validation, Inspections/Ratings
--                       src/modules/inspections/inspection-validation.ts; proofs in
--                       Inspections/Validation/Exact, Inspections/Ratings/Worst
--   Inspections/Records the tables InspectionReport, InspectionReportVersion, InspectionUpload of
--                       prisma/schema.prisma
--   Inspections/Guards, Inspections/Uploads, Inspections/Drafts, Inspections/Final
--                       src/modules/inspections/inspection.service.ts: checks, photos, drafts, and
--                       the end and reopening of a report
--   Inspections/Photos  src/modules/inspections/inspection-assets.service.ts and the cleanup of photos
--   Inspections/Lifecycle the contract of the reports; in Lifecycle/Moves every operation keeps it, in
--                       Lifecycle/History, Lifecycle/Sound, Lifecycle/Reports and Lifecycle/Photos what
--                       every sequence of calls keeps
--   Inspections/Delivery src/modules/inspections/inspection-delivery.service.ts; proofs in
--                       Inspections/Delivery/Settled, Inspections/Delivery/Requests
--   Parties, Parties/Statement, Parties/PublicStatement, Parties/Summary, Parties/Items
--                       src/lib/party-ledger.ts; proofs in Parties/Net, Parties/Regular,
--                       Parties/Reconcile, Parties/Items/Totals
--   Cache               src/lib/simple-cache.ts
--   Gst                 src/lib/gst-settings.ts; proofs in Gst/Guard
--   Otp                 src/modules/auth/login-otp.service.ts
--   Subscription        src/lib/subscription-lock.ts
--   Subscription/Pricing src/lib/subscription-pricing.ts; proofs in Subscription/Pricing/Quotes
--   Errors              src/lib/app-error.ts
--   Prelude, Json, Json/Print, Money   what the source uses of JavaScript: texts, lists, objects,
--                       values of type `unknown`, and rounded amounts
--   Tests               runs of the model, and the theorems at concrete inputs
--
-- State is passed explicitly: the rows of the table, the wallet and its ledger, the tables of
-- referral points. A call that throws is a `Result`, and leaves the state as it was where its writes
-- stand in one transaction. A referral call, a send and a call on inspection reports take the
-- state that they read apart from the state that they commit to, which covers every other call that
-- commits in between. An upsert, a delete and a snapshot of the store are one atomic step: that no
-- other write to the same rows comes between their guards, which the source reads before, and their
-- writes is an assumption. Loops are recursion on
-- lists, so they end; the one fuel is that of decimal printing (`Json.show`), which gets one step
-- more than the number has, and so more than it has digits.
--
-- Amounts and JSON numbers are integers that count ten-thousandths: exact for four decimals, which
-- the source rounds to two. Binary fractions, and numbers with more decimals, are not modelled.
-- Upper and lower case are those of ASCII letters.
--
-- Parameters stand for the JWT library, the queries of organizations, users, branches, customers and
-- vehicles, the clock and the calendar, the storage, the rendering of PDFs, sharp,
-- random ids, the engine's parsers of dates and numbers, and the text of an activity entry.
--
-- Not modelled: listing, sorting and pages of the store; snapshots of job cards; lists, templates and downloads
-- of inspection reports, and files in their storage; the periods of reports;
-- the configuration of prices, subscriptions and provisioning; reminders, rewards, attendance, passwords,
-- customers, vehicles and the platform console; HTTP parsing, uploads, mail and payment gateways.
-- These are separate services, or input and output.
pub mod Prelude
pub mod Errors
pub mod Json
pub mod Access
pub mod Scope
pub mod Store
pub mod Money
pub mod Wallet
pub mod CashBank
pub mod Inspections
pub mod JobCards
pub mod Parties
pub mod Referrals
pub mod Cache
pub mod Gst
pub mod Otp
pub mod Subscription
pub mod Tests
