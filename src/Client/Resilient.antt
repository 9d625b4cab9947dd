-- ===== src/Client/Resilient.antt =====
-- pkg/client/resilient_client.go: the asynchronous client. Its parts are children: the state, the
-- way of an entry into the queue, what a response changes, and what is proved of them.
pub mod State
pub mod Enqueue
pub mod Sending
pub mod Methods
pub mod Accounting
pub mod Admission
pub mod Meant
pub mod Verdict
pub mod Reasons
pub mod Workers
pub mod Keys
pub mod Samples
mod Tests
