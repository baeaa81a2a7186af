-- ===== src/Execution/Intents/Examples.antt =====
-- Runs of packages/execution/intents.py, and its theorems at the candidate of the samples.
use alpha_desk.Base.{◌≡◌, refl, none}
use alpha_desk.Base.Integers.{pos, ◌+ℤ◌, ◌*ℤ◌, abs}
use alpha_desk.Base.Results.{err}
use alpha_desk.Risk.Engine.{evaluate, checks_of, greeks_within}
use alpha_desk.Execution.Intents.{create_order_intent, quantity_mismatch}
use alpha_desk.Execution.Intents.Identity.{create_order_intent_stable}
use alpha_desk.Domain.Workflow.{approve}
use alpha_desk.Samples.{noon, texts, candidate, decision, intent_of, made}

approves : decision.decision ≡ approve
unfolding evaluate checks_of greeks_within ◌+ℤ◌ ◌*ℤ◌ abs
approves = refl

made_twice : (intent_of "5" (noon 1)).client_order_id ≡ (intent_of "6" (noon 9)).client_order_id
made_twice = refl

too_many :
    create_order_intent texts "5" (noon 1) decision candidate (pos 2) none "P" none
    ≡ err quantity_mismatch
unfolding create_order_intent evaluate checks_of greeks_within ◌+ℤ◌ ◌*ℤ◌ abs
too_many = refl

create_order_intent_stable_example :
    (intent_of "5" (noon 1)).client_order_id ≡ (intent_of "6" (noon 9)).client_order_id
create_order_intent_stable_example =
    create_order_intent_stable texts "5" "6" (noon 1) (noon 9) decision candidate (pos 1) none "P"
      none none (made "5" (noon 1)) (made "6" (noon 9))
