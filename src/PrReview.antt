-- ===== src/PrReview.antt =====
-- The hosted pull request review service (services/prreview): the lease of a job, the worker, the rate
-- limit and the receiver of webhooks.
pub mod Jobs
pub mod Limits
pub mod Webhook
pub mod Receiver
pub mod Worker
