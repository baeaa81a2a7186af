-- ===== src/Domain.antt =====
-- packages/domain: the data that the components exchange.
pub mod Time
pub mod Options
pub mod Quotient
pub mod Rounding
pub mod Workflow
pub mod System
pub mod Broker
pub mod Guardian
pub mod Accounts
pub mod Assistant
