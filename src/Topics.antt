-- ===== src/Topics.antt =====
-- MQTT topics: app/core/mqtt_topics.py, and `parse_topic` of app/workers/mqtt_listener.py. A text is
-- the list of its code points.
pub mod Topic
pub mod Segments
pub mod Isolation
pub mod Wildcards
mod Tests
