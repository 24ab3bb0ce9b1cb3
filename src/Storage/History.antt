-- ===== src/Storage/History.antt =====
-- The life of one durable operation (src/storage.rs) through any history of the database.
pub mod Steps
pub mod Purges
pub mod Methods
mod Keys
mod Replays
pub mod Seen
pub mod Claims
pub mod Closing
pub mod Ends
pub mod Lives
mod Trail
pub mod Clean
