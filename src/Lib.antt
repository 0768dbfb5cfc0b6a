-- ===== src/Lib.antt =====
-- claw-hub: refunds for the customers of unmanned shops, and the tools of the shops' owners.
--
-- A customer scans the code of a machine and files a claim (Intake). Risk decides the status in which
-- the claim begins. ClaimStore keeps claims, photos and the audit log. Owners decide the claim over
-- HTTP, and customers' requests and owners' requests interleave (Refund); Claim is the state machine
-- that all of them go through. Access reads the tokens that say who a request acts for, Accounts keeps
-- the owners and their shops, Machines the codes that customers scan, and Payout makes the links with
-- which an owner sends a refund. Public answers a customer who asks for a claim, and Worker runs beside
-- the server. Notify tells the owners' browsers of new claims, and Figures counts the claims for their
-- screens. Limits counts requests and keeps what the worker has sent. Market and Inventory are the
-- owners' market of dolls and their ledger.
--
-- Claim        internal/domain/claim.go: `Status` and `Machine` have the data, the table of transitions
--              and `Transition`; `Lifecycle` has what they promise.
-- ClaimStore   internal/store/claim.go: `Table` has the rows and `CreateClaim`, `ApplyTransition`,
--              `AppendEvent`; `Keys` is about the idempotency key, `Trail` about the audit log.
--              `Page` has `ListClaims` of internal/store/query.go, `Order` the order of its rows, and
--              `Pages` follows its cursors. `Detail` has `ClaimByID`, `Viewed` what it shows and logs.
-- Refund       internal/httpapi/admin_claims.go: `Handlers` and `Payment` have the handlers, as the
--              read and decision (`prepare`) and the write (`commit`) that other requests may come
--              between; `World` is the step relation of them all, `Rows`, `Decisions` and `Safety`
--              prove the invariants of what it reaches. `Page` has the handlers of a claim's page, of its
--              payout sheet and its photos, `Listing` the one of the list; `Sheet` and `Shown` are about
--              what they give.
-- Risk         internal/domain/risk.go and policy.go, `RiskFactsFor` of internal/store/query.go.
--              `Contacts` has internal/store/contact.go and its handler, `Blocked` what a flag does.
-- Intake       internal/httpapi/public.go (`handleCreateClaim` and all that it calls there),
--              internal/media/media.go, `MachineByCode` of internal/store/machine.go.
-- Limits       internal/cache/cache.go and the limits that use it.
-- Access       internal/httpapi/session.go, claimtoken.go and auth.go: `Tokens` signs and reads, `Gate`
--              has the gates before the handlers.
-- Accounts     internal/store/user.go, internal/httpapi/admin_settings.go, `handleLogin` of auth.go:
--              `Users`, `Login`, `Active` and `Stores` have the operations, `Requests` and `Desk` the
--              handlers, and `Guesses`, `Stale`, `World`, `Overlap` and `Settings` what they come to.
--              `Signup` has internal/httpapi/public_signup.go, `Setup` cmd/setup/main.go; `Opening` and
--              `Entrance` follow a new owner to the login.
-- Machines     internal/store/machine.go and the writing handlers of internal/httpapi/admin_machines.go.
-- Payout       internal/payout: banks.go, providers.go and deeplink.go.
-- Public       internal/store/public_status.go and internal/httpapi/public_status.go.
-- Worker       internal/worker/worker.go: `Alerts` and `Once` have `CheckMachineAlerts`, `Digest` when
--              `Run` sends a digest, `Purge`, `Batch` and `Expired` the deletion of expired photos, with
--              what they use of internal/store/stats.go.
-- Notify       `Subscriptions` has internal/store/push.go and internal/httpapi/admin_push.go, `Channels`
--              and `Multi` internal/notify: notify.go, webpush.go, multi.go and `comma` of slack.go.
--              `Apart`, `Live`, `Marks`, `Strikes`, `Three` and `Delivery` hold the proofs.
-- Figures      `Settlement` has internal/store/settlement.go, `Report` internal/httpapi/
--              admin_settlement.go, `Home` internal/store/home.go and `Actions` internal/httpapi/
--              admin_home.go; `Split`, `Sums` and `First` are about what they show.
-- Market       internal/domain/listing.go, internal/store/listing.go, the writing handlers of
--              internal/httpapi/admin_market.go.
-- Inventory    internal/domain/purchase.go, internal/store/inventory.go, and the writing handlers of
--              internal/httpapi/admin_inventory.go.
-- Domain       internal/domain/machine.go, storetype.go, the issues of claim.go, region.go, character.go,
--              the business numbers of listing.go, and the telephone and account numbers of
--              internal/crypto/crypto.go.
-- Prelude      the shared lists, tests, results, integers and texts. Tests has runs and examples.
--
-- A Go function keeps its name in snake_case, and its type is that of the Go function with the tables
-- it reads and writes passed in and out. Texts are lists of code points, and a string that only names
-- a constant is a String. Ids and hashes are numbers, since they are only compared; in Access,
-- Accounts and Payout, where ids stand in tokens, they are texts. Times are
-- nanoseconds since Go's zero time, which is 0. A Go int is an integer; where a sum may leave 64 bits
-- it is wrapped. NULL in paid_amount_krw is 0. Errors are constructors, their messages left out. The
-- tables have their newest row first. A statement that fails rolls its transaction back, so an error
-- returns no tables.
--
-- Loops are recursion on lists. `CreateClaim` tries twice, as the source does, and its two rounds are
-- written out; where it finds nothing to return it gives up with an error, as in the source.
-- `CreateMachine` tries five draws. The batches of trends are cut on fuel, of which the number of the
-- characters is enough, since each batch takes one at least; the pages of a list are followed on fuel,
-- of which the number of the rows and one more is enough, since each page ends below the one before.
-- The days of a settlement are filled in on fuel, their number, which is enough since each step is a day.
--
-- Not modelled: the HTTP and JSON plumbing and the headers of cookies, the connection to the
-- database, bcrypt, AES, HMAC and base64 (parameters where they matter), what `strings.ToUpper`,
-- `strings.ToLower`, `time.ParseInLocation` and the calendar of the time package do beyond what a
-- theorem needs (parameters), the push library's call (a parameter), files on a disk, calls to Slack
-- and Redis; `NormalizeTrend`, which divides floating-point numbers; what the other replies to a screen
-- add by reading, such as the counts by day; and so far the configuration.
mod Prelude
pub mod Claim
pub mod ClaimStore
pub mod Refund
pub mod Risk
pub mod Domain
pub mod Market
pub mod Inventory
pub mod Intake
pub mod Limits
pub mod Accounts
pub mod Payout
pub mod Access
pub mod Public
pub mod Worker
pub mod Notify
pub mod Figures
pub mod Machines
mod Tests
