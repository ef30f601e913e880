-- ===== src/Ingest.antt =====
-- The telemetry pipeline: app/workers/mqtt_listener.py fills the ingest queue, and
-- app/workers/batch_writer.py drains it into the database.
pub mod Envelope
pub mod RoundTrip
pub mod Listener
pub mod Delivery
pub mod Batch
pub mod Drain
pub mod Rows
pub mod Writer
mod Tests
mod FlowTests
