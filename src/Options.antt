-- ===== src/Options.antt =====
-- packages/options: pricing of option structures, and the liquidity of their contracts.
pub mod Engine
pub mod Liquidity
