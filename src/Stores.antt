-- ===== src/Stores.antt =====
-- The small stores of the signals service's results: src/news, src/brief, src/broker and src/alerts.
-- Each keeps what it is sent, by one `findOneAndUpdate` with `upsert` or by one `create`. JSON values
-- are a type; the instants that the schemas add are left out.
pub mod News
pub mod Brief
pub mod Broker
pub mod Alerts
pub mod Upserts
