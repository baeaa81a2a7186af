-- ===== src/Base/Texts.antt =====
-- Python's methods of texts, as far as the code uses them, on ASCII: `lower`, `upper`, `strip` and
-- `+`. A character outside ASCII is left as it is.
use Prim.Native.Char.{Char, code}
use text.Mathlib.TextEquality.{Char-path}
use alpha_desk.Base.{
  ◌≡◌, refl, ap, Bool, true, false, not, ◌&&◌, ◌||◌, String, arith, ◌==◌, if◌then◌else◌, Bool-cases,
  inl, inr, &&-parts, &&-both,
}

infixr 66 ◌⧺◌
abbrev pub ◌⧺◌ : String → String → String
String.[] ⧺ t = t
String.◌∷◌ c s ⧺ t = String.◌∷◌ c (s ⧺ t)

-- `chr` of a table: the character of `to` at the place where `from` has `c`.
abbrev pub translate : String → String → Char → Char
translate String.[] _ c = c
translate (String.◌∷◌ _ _) String.[] c = c
translate (String.◌∷◌ f from) (String.◌∷◌ t to) c =
    if code f == code c then t else translate from to c

abbrev pub map_chars : (Char → Char) → String → String
map_chars f String.[] = String.[]
map_chars f (String.◌∷◌ c s) = String.◌∷◌ (f c) (map_chars f s)

abbrev capitals : String
capitals = "ABCDEFGHIJKLMNOPQRSTUVWXYZ"

abbrev small_letters : String
small_letters = "abcdefghijklmnopqrstuvwxyz"

abbrev pub upper_char : Char → Char
upper_char = translate small_letters capitals

abbrev pub lower_char : Char → Char
lower_char = translate capitals small_letters

unfoldable pub upper : String → String
upper = map_chars upper_char

unfoldable pub lower : String → String
lower = map_chars lower_char

-- `c in s` of a character, and `all(p(c) for c in s)`.
abbrev pub has_char : String → Char → Bool
has_char String.[] c = false
has_char (String.◌∷◌ d s) c = (code d == code c) || has_char s c

abbrev pub all_chars : (Char → Bool) → String → Bool
all_chars p String.[] = true
all_chars p (String.◌∷◌ c s) = p c && all_chars p s

-- `"".join(c for c in s if p(c))`
abbrev pub keep_chars : (Char → Bool) → String → String
keep_chars p String.[] = String.[]
keep_chars p (String.◌∷◌ c s) = if p c then String.◌∷◌ c (keep_chars p s) else keep_chars p s

abbrev pub is_empty : String → Bool
is_empty String.[] = true
is_empty (String.◌∷◌ _ _) = false

abbrev pub is_space : Char → Bool
is_space = has_char " \t\n\r"

abbrev pub strip_left : String → String
strip_left String.[] = String.[]
strip_left (String.◌∷◌ c s) = let rest = strip_left s in if is_space c then rest else String.◌∷◌ c s

abbrev pub strip_right : String → String
strip_right String.[] = String.[]
strip_right (String.◌∷◌ c s) =
    let rest = strip_right s in if is_space c && is_empty rest then String.[] else String.◌∷◌ c rest

unfoldable pub strip : String → String
strip s = strip_right (strip_left s)

abbrev pub is_visible : Char → Bool
is_visible c = not (is_space c)

pub keep_chars-append :
    (p : Char → Bool) (s t : String) → keep_chars p (s ⧺ t) ≡ keep_chars p s ⧺ keep_chars p t
keep_chars-append p String.[] t = refl
keep_chars-append p (String.◌∷◌ c s) t =
    let rest = keep_chars-append p s t in
    elim (Bool-cases (p c)) [
      | inl kept ↦ rw kept (ap (String.◌∷◌ c) rest)
      | inr left ↦ rw left rest
    ]

pub upper-append : (s t : String) → upper (s ⧺ t) ≡ upper s ⧺ upper t
unfolding upper
upper-append String.[] t = refl
upper-append (String.◌∷◌ c s) t = ap (String.◌∷◌ (upper_char c)) (upper-append s t)

pub all_chars-append :
    (p : Char → Bool) (s t : String)
    → all_chars p s ≡ true
    → all_chars p t ≡ true
    → all_chars p (s ⧺ t) ≡ true
all_chars-append p String.[] t hs ht = ht
all_chars-append p (String.◌∷◌ c s) t hs ht =
    let rest = all_chars-append p s t (ground arith) ht in ground arith

strip_left-visible : (s : String) → all_chars is_visible s ≡ true → strip_left s ≡ s
strip_left-visible String.[] h = refl
strip_left-visible (String.◌∷◌ c s) h = elim (Bool-cases (is_space c)) [
  | inl space ↦ ground arith
  | inr visible ↦ rw visible refl
]

strip_right-visible : (s : String) → all_chars is_visible s ≡ true → strip_right s ≡ s
strip_right-visible String.[] h = refl
strip_right-visible (String.◌∷◌ c s) h = elim (Bool-cases (is_space c)) [
  | inl space ↦ ground arith
  | inr visible ↦ rw visible (ap (String.◌∷◌ c) (strip_right-visible s (ground arith)))
]

-- A text without white space stays as it is.
pub strip-visible : (s : String) → all_chars is_visible s ≡ true → strip s ≡ s
unfolding strip
strip-visible s h = rw (strip_left-visible s h) (strip_right-visible s h)

-- What holds of each character of a text, by its code, holds of a character of the text.
pub has_char-all_chars :
    (p : Char → Bool) (s : String) (c : Char)
    → all_chars p s ≡ true
    → has_char s c ≡ true
    → p c ≡ true
has_char-all_chars p String.[] c h m = cc
has_char-all_chars p (String.◌∷◌ d s) c h m = elim (Bool-cases (code d == code c)) [
  | inl same ↦ rw (← Char-path d c (ground arith)) (ground arith)
  | inr other ↦ has_char-all_chars p s c (ground arith) (ground arith)
]

pub ⧺-nil : (s : String) → s ⧺ "" ≡ s
⧺-nil String.[] = refl
⧺-nil (String.◌∷◌ c s) = ap (String.◌∷◌ c) (⧺-nil s)

module _ (p : Char → Bool) where
  pub all_chars_split :
      (s t : String) → all_chars p (s ⧺ t) ≡ true → (all_chars p s ≡ true) × (all_chars p t ≡ true)
  all_chars_split String.[] t h = (refl, h)
  all_chars_split (String.◌∷◌ c s) t h =
      let (here, more) = &&-parts (p c) (all_chars p (s ⧺ t)) h in
      let (there, rest) = all_chars_split s t more in (&&-both (p c) _ here there, rest)

  pub all_chars_map :
      (q : Char → Bool)
      → ((c : Char) → p c ≡ true → q c ≡ true)
      → (s : String) → all_chars p s ≡ true
      → all_chars q s ≡ true
  all_chars_map q imp String.[] h = refl
  all_chars_map q imp (String.◌∷◌ c s) h =
      let (here, rest) = &&-parts (p c) (all_chars p s) h in
      &&-both (q c) _ (imp c here) (all_chars_map q imp s rest)
