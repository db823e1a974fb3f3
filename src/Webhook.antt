-- ===== src/Webhook.antt =====
-- internal/hosted/webhook/handler.go: signed deliveries of the forge, and the queue that takes them.
pub mod Signature
pub mod Handler
