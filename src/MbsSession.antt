-- ===== src/MbsSession.antt =====
-- lib/mb-smf-service-consumer/mbs-session.c and its neighbours: the MBS Sessions of the library.
pub mod Callbacks
pub mod Public
pub mod Push
pub mod Update
pub mod Subscriptions
pub mod Status
