-- ===== src/Parser/Paths.antt =====
-- CheckContents and ResolvePath of parser/space_key.go against the form that their documentation
-- gives.
use spacesvm.Prelude.{ℕ, ◌≡◌, refl, sym, ◌∙◌, ap, ◌≢◌, ◌↔◌, true, List, [], ◌∷◌, ◌++◌, Bytes, arith}
use spacesvm.Errors.{ok}
use spacesvm.Parser.{
  is_identifier_char, all_identifier_chars, check_contents, split, check_segments, resolve_path,
  byte_delimiter, AllIdentifierChars, IsIdentifier,
}

all_sound : (s : Bytes) → all_identifier_chars s ≡ true → AllIdentifierChars s
unfolding all_identifier_chars is_identifier_char
all_sound [] h = tt
all_sound (c ∷ s) h = ground (arith, all_sound s)

all_complete : (s : Bytes) → AllIdentifierChars s → all_identifier_chars s ≡ true
unfolding all_identifier_chars is_identifier_char
all_complete [] h = refl
all_complete (c ∷ s) h = ground (arith, all_complete s h.1)

-- An identifier passes exactly when it has 1 to 256 characters, each in a-z or 0-9.
pub check_contents_iff : (s : Bytes) → (check_contents s ≡ ok tt) ↔ IsIdentifier s
unfolding check_contents
check_contents_iff s = (
  λ h. record {
    nonempty = ground arith;
    bounded = ground arith;
    chars = all_sound s (ground arith);
  },
  λ v. let c = all_complete s v.chars in let a = v.nonempty in let b = v.bounded in ground arith,
)

-- the parts of a path put together again
join : ℕ → List Bytes → Bytes
join d [] = []
join d (s ∷ []) = s
join d (s ∷ t ∷ r) = s ++ d ∷ join d (t ∷ r)

split-nonempty : (d : ℕ) (s : Bytes) → split d s ≢ []
unfolding split
split-nonempty d [] h = cc
split-nonempty d (c ∷ s) h = ground arith

join-split : (d : ℕ) (s : Bytes) → join d (split d s) ≡ s
unfolding join split
join-split d [] = refl
join-split d (c ∷ s) = go (split d s) refl (join-split d s)
  where
    go : (l : List Bytes) → split d s ≡ l → join d l ≡ s → join d (split d (c ∷ s)) ≡ c ∷ s
    go [] e ih = absurd (split-nonempty d s e)
    go (t ∷ []) e ih = ground arith
    go (t ∷ u ∷ r) e ih = ground arith

split-free : (s t : Bytes) → AllIdentifierChars s → split 47 (s ++ 47 ∷ t) ≡ s ∷ split 47 t
unfolding split
split-free [] t h = refl
split-free (c ∷ s) t h = ground (arith, split-free s t h.1)

split-last : (s : Bytes) → AllIdentifierChars s → split 47 s ≡ s ∷ []
unfolding split
split-last [] h = refl
split-last (c ∷ s) h = ground (arith, split-last s h.1)

-- What the path must have been for its segments to pass.
abbrev Accepted : Bytes → Bytes → List Bytes → Type 0
Accepted space key l = (l ≡ space ∷ key ∷ []) × IsIdentifier space × IsIdentifier key

check_segments_sound :
    (space key : Bytes) (l : List Bytes) → check_segments l ≡ ok (space, key) → Accepted space key l
unfolding check_segments
check_segments_sound space key (a ∷ b ∷ []) h =
    let same : (a ≡ space) × (b ≡ key) = ground arith in
    (
      ground arith,
      rw (← same.0) ((check_contents_iff a).0 (ground arith)),
      rw (← same.1) ((check_contents_iff b).0 (ground arith)),
    )
check_segments_sound space key _ h = cc

-- A path is accepted exactly when it is an identifier, the delimiter and an identifier, and the
-- two identifiers are then the result.
pub resolve_path_iff :
    (path space key : Bytes)
    → (resolve_path path ≡ ok (space, key))
      ↔ ((path ≡ space ++ byte_delimiter ∷ key) × IsIdentifier space × IsIdentifier key)
unfolding resolve_path join
resolve_path_iff path space key = (
  λ h.
      let a = check_segments_sound space key (split 47 path) h in
      (sym (join-split 47 path) ∙ ap (join 47) a.0, a.1, a.2),
  λ (e, vs, vk).
      rw (e, split-free space key vs.chars, split-last key vk.chars)
        (rw ((check_contents_iff space).1 vs, (check_contents_iff key).1 vk, check_segments)),
)
