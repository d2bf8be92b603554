-- ===== src/Session.antt =====
-- A user session's accounts: Source/UserSession/ and the parts of Source/Public/ that it fills.
pub mod Codes
pub mod Errors
pub mod Notifications
pub mod Credentials
pub mod Authentication
pub mod Profile
pub mod Clients
pub mod Accounts
pub mod Observers
