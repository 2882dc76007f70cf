-- ===== src/Tests.antt =====
-- The code on concrete inputs, and the theorems applied to such inputs.
mod PathTests
mod StoreTests
mod SubscriptionTests
mod NotificationTests
mod AisTests
mod ServerTests
mod CourseTests
mod AnchorTests
mod AutopilotTests
mod ManagerTests
mod PluginTests
