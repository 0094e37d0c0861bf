-- ===== src/Router.antt =====
-- core/src/router: the message router, which holds the life of every message, what each agent owes and
-- waits for, and what the idle gate tells the queue workers. A `Mutex` is a field of the state, a
-- method returns the new state; `await` points split a method only where the code says so.
pub mod State
pub mod Sinks
pub mod Loops
pub mod Reply
pub mod Create
pub mod Gate
pub mod Watchdog
pub mod Drive
pub mod Steps
pub mod Transitions
pub mod Accounts
pub mod History
