-- ===== src/Auth.antt =====
-- modules/auth: the rows and the settings (Tables), sessions (Sessions), the device of a login
-- (LoginDevices), signing in (Login, SignIn), refreshing, checking and ending a session (Refresh), resetting
-- and changing a password (Reset, Passwords). A handler here writes even when it throws, so it answers a
-- result and the tables. Families has the moves of sessions, Requests finds them in the handlers, and
-- Histories puts requests after one another; Replay, Access and Lockout are about single requests.
pub mod Tables
pub mod Sessions
pub mod LoginDevices
pub mod Login
pub mod SignIn
pub mod Refresh
pub mod Reset
pub mod Passwords
pub mod Families
pub mod Requests
pub mod Histories
pub mod Replay
pub mod Access
pub mod Lockout
