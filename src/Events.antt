-- ===== src/Events.antt =====
-- internal/events: the categories, the severities, the event catalog and the events built from it.
mod Examples
pub mod Category
pub mod Severity
pub mod Definition
pub mod Catalog
pub mod Event
