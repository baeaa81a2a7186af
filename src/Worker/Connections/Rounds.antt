-- ===== src/Worker/Connections/Rounds.antt =====
-- What runs after a round of `_connection_supervisor` (apps/worker/__main__.py).
use alpha_desk.Base.{
  ◌≡◌, refl, true, Option, none, some, String, str_eq, if◌then◌else◌, Bool-cases, inl, inr,
}
use alpha_desk.Base.Dict.{Dict, contains, insert, lookup-insert}
use alpha_desk.Domain.Workflow.{Uuid}
use alpha_desk.Security.Store.{Credential}
use alpha_desk.Worker.Connections.{ActiveRuntime}

-- The keys that a runtime was started with, and those of a credential.
abbrev pub runtime_keys : Option ActiveRuntime → Option String
runtime_keys none = none
runtime_keys (some runtime) = some runtime.fingerprint

abbrev pub credential_keys : Option Credential → Option String
credential_keys none = none
credential_keys (some row) = some row.fingerprint

pub contains-insert :
    (k w : Uuid) (runtime : ActiveRuntime) (runtimes : Dict ActiveRuntime)
    → contains w (insert k runtime runtimes) ≡ (if str_eq k w then true else contains w runtimes)
contains-insert k w runtime runtimes = elim (Bool-cases (str_eq k w)) [
  | inl here ↦ rw (lookup-insert k w runtime runtimes, here) refl
  | inr there ↦ rw (lookup-insert k w runtime runtimes, there) refl
]
