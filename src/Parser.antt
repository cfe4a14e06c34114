-- ===== src/Parser.antt =====
-- parser/space_key.go: the form of spaces and keys, and paths of the form space/key.
pub mod Paths
use spacesvm.Prelude.{
  ℕ, ◌≤◌, ◌<◌, ◌⊎◌, Bool, true, ◌&&◌, ◌||◌, List, [], ◌∷◌, Bytes, length, leb, ◌==◌, if◌then◌else◌,
}
use spacesvm.Errors.{Result, ok, err, fail_if, invalid_contents, invalid_path, ◌>>=◌, ◌>>◌}

abbrev pub max_identifier_size : ℕ
max_identifier_size = 256

abbrev pub byte_delimiter : ℕ
byte_delimiter = b'/'

-- the character class [a-z0-9]
is_identifier_char : ℕ → Bool
is_identifier_char c = leb b'a' c && leb c b'z' || leb b'0' c && leb c b'9'

all_identifier_chars : Bytes → Bool
all_identifier_chars [] = true
all_identifier_chars (c ∷ s) = is_identifier_char c && all_identifier_chars s

-- the regular expression ^[a-z0-9]{1,256}$
matches_identifier : Bytes → Bool
matches_identifier s =
    leb 1 (length s) && leb (length s) max_identifier_size && all_identifier_chars s

unfoldable pub check_contents : Bytes → Result (Unit {0})
unfolding matches_identifier all_identifier_chars is_identifier_char
check_contents identifier = if matches_identifier identifier then ok tt else err invalid_contents

-- Go's strings.Split at a delimiter of one byte
split : ℕ → Bytes → List Bytes
split d [] = [] ∷ []
split d (c ∷ s) =
    let rest = split d s in
    if c == d then [] ∷ rest else elim rest [ [] ↦ (c ∷ []) ∷ [] | seg ∷ segs ↦ (c ∷ seg) ∷ segs ]

-- the part of ResolvePath after the split
check_segments : List Bytes → Result (Bytes × Bytes)
check_segments (space ∷ key ∷ []) = do check_contents space; check_contents key; ok (space, key)
check_segments _ = err invalid_path

unfoldable pub resolve_path : Bytes → Result (Bytes × Bytes)
unfolding check_segments split
resolve_path path = check_segments (split byte_delimiter path)

-- What the comment on the regular expression says, as a predicate.
abbrev pub IsIdentifierChar : ℕ → Type 0
IsIdentifierChar c = ((b'a' ≤ c) × (c ≤ b'z')) ⊎ ((b'0' ≤ c) × (c ≤ b'9'))

abbrev pub AllIdentifierChars : Bytes → Type 0
AllIdentifierChars [] = Unit
AllIdentifierChars (c ∷ s) = IsIdentifierChar c × AllIdentifierChars s

pub record IsIdentifier (s : Bytes) : Type 0 where
  pub nonempty : 1 ≤ length s
  pub bounded : length s ≤ 256
  pub chars : AllIdentifierChars s
