-- ===== src/Webhook.antt =====
-- api/internal/webhook: the decisions of push-to-deploy.
pub mod Window
pub mod Trigger
pub mod Verify
pub mod Samples
