-- ===== src/Domain/System.antt =====
-- packages/domain/system.py: what is known of the broker.
use alpha_desk.Base.{Bool, true, false}

pub data BrokerState : Type 0 where
  not_configured unknown reconciling reconciled divergent : BrokerState

-- `state is BrokerState.RECONCILED`
abbrev pub is_reconciled : BrokerState → Bool
is_reconciled reconciled = true
is_reconciled _ = false
