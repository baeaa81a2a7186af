-- ===== src/Auth/Invitations/Codes.antt =====
-- The codes that `create` hands out (packages/auth/invitations.py) open the invitation they came with.
use Prim.Native.Char.{Char, code}
use alpha_desk.Base.{◌≡◌, Bool, true, ◌&&◌, String, [], ◌∷◌, ◌==◌}
use alpha_desk.Base.Texts.{has_char, all_chars, is_visible, upper_char}
use alpha_desk.Domain.Workflow.{join}
use alpha_desk.Auth.Invitations.{
  crockford_alphabet, is_kept, normalize_readable_code, slices_of_five,
}

-- A text of characters of the alphabet.
abbrev pub IsDrawn : String → Type 0
IsDrawn draws = all_chars (has_char crockford_alphabet) draws ≡ true

-- Such a character is no separator and no space, and is its own capital.
abbrev is_stable : Char → Bool
is_stable c = is_kept c && (is_visible c && (code (upper_char c) == code c))

abbrev text_of_five : Char → Char → Char → Char → Char → String
text_of_five a b c d e =
    String.◌∷◌ a (String.◌∷◌ b (String.◌∷◌ c (String.◌∷◌ d (String.◌∷◌ e String.[]))))

-- The printed code is visible, and normalizes to the draws.
abbrev PrintsBack : String → Type 0
PrintsBack raw =
    (all_chars is_visible (join "-" (slices_of_five raw)) ≡ true)
    × (normalize_readable_code (join "-" (slices_of_five raw)) ≡ raw)
