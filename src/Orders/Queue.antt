-- ===== src/Orders/Queue.antt =====
-- internal/erp/hasavshevet/queue.go: the order queue. The state, the recovery of the key index,
-- the acceptance of requests and the worker have a child each, and so have their properties.
pub mod State
pub mod Recover
pub mod Accept
pub mod Worker
pub mod Steps
pub mod Once
pub mod Safety
