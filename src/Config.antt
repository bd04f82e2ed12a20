-- ===== src/Config.antt =====
-- app/: the configuration, its reader and its writer.
pub mod State
pub mod Values
pub mod Keys
pub mod LineText
pub mod Scalars
pub mod Blanks
pub mod Reader
pub mod Writer
pub mod Quoted
pub mod Numbers
pub mod Lines
pub mod Written
pub mod Within
pub mod TrackerTrip
pub mod TrackerKeys
pub mod TrackerBlock
mod Tests
