-- ===== src/Lib.antt =====
-- A model of iotaps, an IoT platform: devices speak MQTT, the workers of app/workers and the
-- services of app/services keep their state in Redis and a database.
--
-- The parts, and the files that model them:
--
-- Command: app/services/command_service.py. A command is issued online, or queued for a device
-- that is offline, and acknowledged, expired or flushed later. Status has the state machine, World
-- the Redis records, queues, credentials and the broker, Service the operations
-- (`issue_command`, `confirm_command`, `expire_command`, `flush_queued_commands`, `get_command`)
-- as coroutines in a monad of state and errors that keeps what was written before an error.
-- Each call gets an `Env`, with the time, the new id, and which of its outside calls succeed, so
-- every pattern of failures is covered. `lapse` drops the records and queues that have run out when a
-- call begins. Calls follow one another whole. The other files prove.
-- Rules: app/workers/alert_checker.py. Predicate reads configurations, Chain follows a rule's
-- graph, Plan makes and executes the plan. The loop of `build_chain` runs on fuel, which is the
-- number of stored nodes and one more: each step visits a stored node for the first time, and the
-- last finds none.
-- Plans: app/services/plan_limits.py, app/services/quota_service.py, and the plan tests of
-- app/services/rule_service.py and app/workers/data_retention.py.
-- Ingest: app/workers/mqtt_listener.py fills a queue in Redis and app/workers/batch_writer.py
-- drains it. Envelope has what travels, Listener the handler
-- of telemetry, Batch one `process_batch` with the messages that arrive
-- between its calls, Writer the retries of `run`, which polls once for each given surroundings.
-- Billing: app/services/billing_service.py (Prices), app/services/subscription_service.py (Calendar
-- has `datetime` and `_add_period`, Orders the coupons and `subscribe`, Payments the webhook events,
-- Refunds the refunds), and app/services/commission_service.py with app/services/payout_service.py
-- (Wallets).
-- Topics: app/core/mqtt_topics.py and `parse_topic` of app/workers/mqtt_listener.py.
-- RateLimit: app/core/rate_limit.py, with its Lua script (Bucket), and
-- app/core/security/rate_limit_middleware.py (Middleware).
-- Auth: app/core/security/jwt.py (Jwt), the routes of app/api/v1/auth.py that give tokens (Sessions),
-- app/core/security/principal.py and deps.py (Principal). RateLimit reads a token's organization
-- by it, and Devices shares its assignments.
-- Webhooks: app/workers/webhook_dispatcher.py, and the messages of `RedisActionSink` of the rules.
-- The loop of a delivery recurs on the attempts that are left.
-- RuleStore: app/services/rule_service.py, with the limits of Plans.
-- Devices: app/services/device_service.py, with the limits of Plans and the nodes of Nodes.
-- Notifications: app/workers/notification_sender.py, which reads the alerts of the rules.
-- Reminders: app/workers/subscription_expiry.py.
-- Purge: app/workers/data_retention.py, with the policies of Plans. Its run sweeps once for each of the
-- given surroundings.
-- Nodes: app/services/node_assignment.py, where other sessions act between the claims of one.
-- Referrals: app/services/referral_service.py.
-- Json has the values that `json.loads` gives, Common what the files share.
--
-- Identifiers, tokens and ids of graphs are numbers where they are only compared. Floats are a
-- parameter with their comparisons and the few operations that are used, but for the token buckets,
-- which count billionths of a token exactly, and the coupons, whose values are hundredths. Times are
-- numbers. A table of the database is a list of rows.
--
-- Not modelled: the HTTP routes but for those of Auth, the ORM's tables,
-- the network, logging and configuration, and the payment provider, which only pass values on.
pub mod Common
pub mod Command
pub mod Json
pub mod Rules
pub mod Plans
pub mod Ingest
pub mod Billing
pub mod Topics
pub mod Nodes
pub mod Referrals
pub mod Auth
pub mod RateLimit
pub mod Webhooks
pub mod RuleStore
pub mod Devices
pub mod Notifications
pub mod Reminders
pub mod Purge
