-- ===== src/Gateway.antt =====
-- internal/gateway: accounts, their health, routing, aliases and the failover walk.
pub mod Account
pub mod Errors
pub mod Events
pub mod Health
pub mod Routing
pub mod Scheduler
pub mod Alias
pub mod Relay
pub mod Openai
pub mod Credentials
