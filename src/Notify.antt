-- ===== src/Notify.antt =====
-- internal/notify and internal/store/push.go with internal/httpapi/admin_push.go: the messages to the
-- owner, the browsers that get them and what a push service's answers do to them.
-- Subscriptions: the rows and the handlers. Channels: the notices and the web push. Multi: several
-- channels as one. Apart, Live, Marks, Strikes, Three and Delivery hold the proofs.
pub mod Subscriptions
pub mod Channels
pub mod Multi
pub mod Apart
pub mod Live
pub mod Delivery
pub mod Marks
pub mod Strikes
pub mod Three
