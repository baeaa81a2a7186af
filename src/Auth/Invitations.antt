-- ===== src/Auth/Invitations.antt =====
-- packages/auth/invitations.py: the codes of invitations, and which invitation a code opens.
-- `hash` stands for the SHA-256 digest.
pub mod Codes
use Prim.Native.Char.{Char}
use alpha_desk.Base.{
  ℕ, ◌+◌, ◌*◌, ◌≡◌, Bool, true, false, not, ◌&&◌, Option, none, some, String, List, [], ◌∷◌, ◌++◌,
  any, find_first, str_eq, ltb, if◌then◌else◌, is_some,
}
use alpha_desk.Base.Texts.{keep_chars, has_char, upper, strip}
use alpha_desk.Domain.Time.{Datetime, micros_per_second}
use alpha_desk.Domain.Workflow.{Uuid, join}
use alpha_desk.Domain.Accounts.{Invitation}

abbrev pub crockford_alphabet : String
crockford_alphabet = "0123456789ABCDEFGHJKMNPQRSTVWXYZ"

abbrev pub default_watchlist : List String
default_watchlist = "AAPL" ∷ "AMZN" ∷ "META" ∷ "MSFT" ∷ "NVDA" ∷ "SPY" ∷ "TSLA" ∷ []

abbrev pub is_kept : Char → Bool
is_kept c = not (has_char "- " c)

unfoldable pub normalize_readable_code : String → String
normalize_readable_code code = keep_chars is_kept (upper code)

-- `raw[index : index + 5] for index in range(0, len(raw), 5)`
abbrev pub slices_of_five : String → List String
slices_of_five String.[] = []
slices_of_five (String.◌∷◌ a (String.◌∷◌ b (String.◌∷◌ c (String.◌∷◌ d (String.◌∷◌ e s))))) =
    String.◌∷◌ a (String.◌∷◌ b (String.◌∷◌ c (String.◌∷◌ d (String.◌∷◌ e String.[]))))
    ∷ slices_of_five s
slices_of_five s = s ∷ []

-- `generate_invitation_code`, from the text of the random draws.
unfoldable pub generate_invitation_code : String → String
generate_invitation_code raw = join "-" (slices_of_five raw)

module _ (hash : String → String) where
  unfoldable pub invitation_hash_candidates : String → List String
  invitation_hash_candidates code =
      let raw = strip code in
      let readable = hash (normalize_readable_code raw) in
      let legacy = hash raw in
      if str_eq readable legacy then readable ∷ [] else readable ∷ legacy ∷ []

  -- `InvitationService.create`: the new row and the code to hand out. Identifiers, the random draws
  -- and the current time are arguments.
  unfoldable pub create :
      Uuid → String → Datetime → Uuid → String → ℕ → Option Datetime → Invitation × String
  create id draws now created_by comment max_uses expires_at =
      let raw_token = generate_invitation_code draws in
      let week_later = record now { micros = now.micros + 7 * (86_400 * micros_per_second) } in
      (
        record {
          invitation_id = id;
          token_hash = hash (normalize_readable_code raw_token);
          code_format = "crockford_v1";
          comment = comment;
          max_uses = max_uses;
          use_count = 0;
          expires_at = elim expires_at [ none ↦ some week_later | some t ↦ some t ];
          disabled_at = none;
          created_by_user_id = created_by;
          created_at = now;
        },
        raw_token,
      )

  -- The condition `token_hash in candidates`.
  abbrev pub opens : String → Invitation → Bool
  opens code invitation =
      any (λ candidate. str_eq candidate invitation.token_hash) (invitation_hash_candidates code)

  -- `InvitationService.inspect`
  unfoldable pub inspect : String → List Invitation → Option Invitation
  inspect code rows = find_first (opens code) rows

abbrev pub not_expired : Option Datetime → Datetime → Bool
not_expired none now = true
not_expired (some expires_at) now = ltb now.micros expires_at.micros

-- `InvitationService.available`
unfoldable pub available : Invitation → Datetime → Bool
available invitation now =
    not (is_some invitation.disabled_at)
    && (not_expired invitation.expires_at now && ltb invitation.use_count invitation.max_uses)
