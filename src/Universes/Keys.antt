-- ===== src/Universes/Keys.antt =====
-- src/app/universes/service.py, `_generate_user_key`. The hexadecimal tokens of `secrets` are an
-- argument.
use web_enigma.Base.{
  ℕ, ◌==◌, leb, Bool, true, false, ◌&&◌, ◌||◌, if◌then◌else◌, none, some, List, [], ◌∷◌, ◌++◌,
}
use web_enigma.Base.Texts.{Text, codes, is_empty}
use web_enigma.Base.Result.{Result, ok, raises, runtime_error}
use web_enigma.Universes.{SymbolUniverse}
use web_enigma.Universes.Registry.{normalize_key, find_universe}

-- A character that re.sub(r"[^a-z0-9]+", "-", ...) keeps.
abbrev is_slug_char : ℕ → Bool
is_slug_char c = leb b'a' c && leb c b'z' || leb b'0' c && leb c b'9'

-- re.sub(r"[^a-z0-9]+", "-", ...); the flag is that a character was just replaced.
unfoldable pub replace_runs : Bool → Text → Text
replace_runs replaced [] = []
replace_runs replaced (c ∷ s) = elim (is_slug_char c) [
  | true ↦ c ∷ replace_runs false s
  | false ↦ elim replaced [ true ↦ replace_runs true s | false ↦ b'-' ∷ replace_runs true s ]
]

unfoldable pub strip_left_dashes : Text → Text
strip_left_dashes [] = []
strip_left_dashes (c ∷ s) = let rest = strip_left_dashes s in if c == b'-' then rest else c ∷ s

unfoldable pub strip_right_dashes : Text → Text
strip_right_dashes [] = []
strip_right_dashes (c ∷ s) =
    let rest = strip_right_dashes s in if is_empty rest && c == b'-' then [] else c ∷ rest

-- The part of a user key that comes from the name.
unfoldable pub key_base : Text → Text
key_base name =
    let base = strip_right_dashes (strip_left_dashes (replace_runs false (normalize_key name))) in
    if is_empty base then codes "universe" else base

abbrev pub user_key : Text → Text → Text
user_key base token = codes "user-" ++ base ++ codes "-" ++ token

-- The `for` of _generate_user_key, over the tokens that it draws.
unfoldable pub first_free : List SymbolUniverse → Text → List Text → Result Text
first_free us base [] = raises runtime_error
first_free us base (token ∷ tokens) = elim (find_universe (user_key base token) us) [
  | none ↦ ok (user_key base token)
  | some u ↦ first_free us base tokens
]

-- _generate_user_key, with the ten tokens
unfoldable pub generate_user_key : List SymbolUniverse → Text → List Text → Result Text
generate_user_key us name tokens = first_free us (key_base name) tokens
