-- ===== src/Lib.antt =====
-- Ethiogram: a marketplace of AI agents for businesses on Telegram, with a token economy (ETG).
--
-- A business has a wallet; each action of its bots is charged to it (app/core/metering.py), and recharges
-- are credited to it (app/api/billing.py). A business may try an agent of another creator or unlock it
-- for a price that is held in escrow (app/api/agents.py); a worker releases the escrow and pays the creator
-- (workers/escrow_release.py), and another ends the trials that run out (workers/trial_monitor.py). Replies
-- come from the models that app/services/model_router.py chooses. Customers book appointments
-- (app/services/booking_service.py) and are reminded of them (workers/booking_reminders.py). A business may
-- be handed over to another user (app/api/transfers.py). The messages of its customers arrive at
-- app/api/webhooks.py, which decides who pays, asks an agent for the answer and bills it. Users register
-- and log in (app/api/auth.py), and the staff suspends and grants (app/api/admin.py,
-- app/api/admin_panel.py).
--
-- Files, and the code that each models:
--   Base          shared helpers: tests, lists as tables, association lists, integers, sums, texts
--   Models        the rows of app/db/models.py, the errors of app/core/exceptions.py and the settings of
--                 app/core/config.py; `World` is the database and Redis
--   Request       handlers as state and exceptions, and the transaction of `get_db` in app/db/session.py
--   Metering      `MeteringService`: Balance, Pricing, Charging, Crediting, Alerts; theorems in Cache,
--                 Ledger, Spending, Escalation, Grace
--   Agents        app/api/agents.py: Access (guards), Child, Trial, Unlock, Manage, Review; theorems in
--                 Payment, Unrecorded and Once
--   Escrow        workers/escrow_release.py: Share (the 70 percent on doubles), Release; theorems in
--                 Outcome, Conservation, Backing
--   ModelRouter   `ModelRouter`: Keys (Redis), Chain; theorems in Availability, Failover
--   Booking       app/services/booking_service.py: Slots, Persistence; theorems in Hours, Overlap, Offers
--   Transfers     app/api/transfers.py: Recipient, Handlers; theorems in Pending, Consent
--   Billing       app/api/billing.py: Recharge, Webhook; theorems in Confirmation,
--                 Purchase, Settings
--   TrialMonitor  workers/trial_monitor.py: Stages; theorems in Expiry
--   Reminders     workers/booking_reminders.py: Scan; theorems in Repeat
--   Messages      app/api/webhooks.py: Cost, Policy, Meter, Status, Incoming, Record, Pipeline, with the owner's
--                 settings in app/api/businesses.py and the prices in app/api/admin_panel.py; theorems
--                 in PriceText, Prices, Bills, Solvency, Keeps, Answers, Accounts, Once, Recovery,
--                 Recharged
--   Credits       app/services/referral_service.py and app/api/internal.py: Referral, Internal; theorems in
--                 Pending, Bonus, Odaflux
--   Auth          app/core/security.py, app/api/deps.py and app/api/auth.py: Tokens, Guards, Login; theorems
--                 in Registration, Rotation
--   Admin         app/api/admin.py and app/api/admin_panel.py: Audit, Bots, Users, Market; theorems in
--                 Lockout, Silence, Rights
--   Bots          app/api/bots.py and app/services/bot_onboarding.py: Owned, Onboarding; theorems in Control,
--                 Welcome
--   Storefront    the generation of a storefront in app/api/businesses.py: Generation; theorems in Limits,
--                 Unmetered
--   Knowledge     app/services/embedding_service.py and app/services/rag_service.py: Chunks, Context;
--                 theorems in Coverage, Budget
--   Utils         app/utils/phone.py: Phone; theorems in Normal
--   Tests         concrete worlds, runs, and instances of the theorems
--
-- State and operations: a table is the list of its rows, the newest first where the code orders by
-- creation. A query is a search by a Boolean predicate, and a write to an object that a query returned is
-- a write to the row that it found. A handler is a function from a world to its result and the world after
-- it; the time, the user and the request are its arguments. Handlers run one after another: the code's
-- races between transactions are not modelled. UUIDs are numbers drawn from `next_id`, times are
-- microseconds, or seconds in Auth, and ETG amounts are integers without the bound of the 32-bit column.
--
-- Arguments of the model, for code that is not in the repository: the encryption of secrets, the model
-- providers' calls, the zone's clock `to_utc`, the Unicode tables of `Characters`, Chapa's HMAC, JSON and
-- confirmation, the floats that its amount is compared on (`Floats`), and whether a Telegram message goes through. `Security` stands for JWT and bcrypt, with what
-- is random drawn from a seed. `Services` stands for the sub-flows of the message pipeline, which a
-- theorem asks to leave certain tables alone, and for the agents' answer.
--
-- Fuel: `round_double` doubles its unit at most 64 times; a product of an amount below 2^31 with the
-- double 0.70 needs 31 at most. The loop of `compute_free_slots` takes fuel and returns none if it runs
-- out; it visits each slot of the day once, and 23 hours have fewer than 1440 slots of a minute or more.
-- `chunk_loop` goes forward by a word at least, so it takes one more unit than the text has words.
--
-- Not modelled: the sub-flows of the pipeline and its HTTP clients, the pages
-- of the storefront, the Mini App login, the AI providers, listings and response objects, parsing of free text,
-- migrations.
pub mod Base
pub mod Models
pub mod Request
pub mod Metering
pub mod Agents
pub mod ModelRouter
pub mod Escrow
pub mod Booking
pub mod Transfers
pub mod Billing
pub mod TrialMonitor
pub mod Reminders
pub mod Tests
pub mod Messages
pub mod Credits
pub mod Auth
pub mod Admin
pub mod Bots
pub mod Storefront
pub mod Knowledge
pub mod Utils
