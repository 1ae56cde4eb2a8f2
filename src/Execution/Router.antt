-- ===== src/Execution/Router.antt =====
-- InstrumentRouter of polyperps/execution/order_router.py: the state machine of one instrument.
pub mod Rows
pub mod Stops
pub mod Send
pub mod Exits
pub mod Bars
pub mod Events
pub mod Handlers
pub mod Calls
pub mod Frozen
pub mod Fills
pub mod Entries
pub mod Sending
pub mod Retried
pub mod Reseeded
