-- ===== src/Tree/Chunks.antt =====
-- The chunks that Upload of tree/tree.go has stored.
use spacesvm.Prelude.{
  ℕ, ◌<◌, ◌≡◌, ◌≢◌, ◌⊎◌, Option, none, inl, inr, refl, sym, ap, ◌∙◌, subst, true, false, Bool-cases,
  some, List, [], ◌∷◌, ◌++◌, Bytes, bytes_eq, bytes_eq→eq, bytes_eq_self, length, if◌then◌else◌,
  arith,
}
use mathlib.Core.List.{append_assoc, append-nil}
use spacesvm.Errors.{ok, bind-ok}
use spacesvm.Tx.{contains_id}
use spacesvm.Tree.{
  Client, Root, TreeFormats, Read, Problem, Progress, upload_chunk, is_empty, download_children,
}

-- What is relied on: the service stores what it accepts, and a root is read back.
pub record IsReliable {S : Type 0} (cli : Client S) (f : TreeFormats) : Type 0 where
  pub resolve-set_key :
      (s t : S) (k v j : Bytes)
      → cli.set_key s k v ≡ ok t
      → cli.resolve t j ≡ (if bytes_eq k j then some v else cli.resolve s j)
  pub unmarshal-marshal_root :
      (r : Root) (v : Bytes) → f.marshal_root r ≡ some v → f.unmarshal_root v ≡ some r

-- Two values that have one hash
abbrev pub Collision : TreeFormats → Type 0
Collision f = (a : Bytes) × (b : Bytes) × (a ≢ b) × (f.hash_text a ≡ f.hash_text b)

abbrev pub without_bytes : Option Problem → Read
without_bytes p = record { got = []; problem = p }

abbrev pub only_bytes : Bytes → Read
only_bytes b = record { got = b; problem = none }

-- Reads that give the content in whole chunks, the last one perhaps shorter.
pub data Chunks (n : ℕ) : List Read → Bytes → Type 0 where
  at_end : Chunks n [] []
  at_eof : (p : Option Problem) (reads : List Read) → Chunks n (without_bytes p ∷ reads) []
  last_chunk :
      (b : Bytes) (reads : List Read)
      → 0 < length b
      → length b < n
      → Chunks n (only_bytes b ∷ reads) b
  whole_chunk :
      (b c : Bytes) (reads : List Read)
      → 0 < length b
      → length b ≡ n
      → Chunks n reads c
      → Chunks n (only_bytes b ∷ reads) (b ++ c)

module _ {S : Type 0} (cli : Client S) (f : TreeFormats) (r : IsReliable cli f) where
  -- The chunks of the content are stored under the hashes.
  pub data Held (s : S) : List Bytes → Bytes → Type 0 where
    no_chunk : Held s [] []
    chunk_held :
        (b c : Bytes) (hs : List Bytes)
        → cli.resolve s (f.hash_text b) ≡ some b
        → Held s hs c
        → Held s (f.hash_text b ∷ hs) (b ++ c)

  Held-append :
      (s : S) (hs : List Bytes) (c b : Bytes)
      → Held s hs c
      → cli.resolve s (f.hash_text b) ≡ some b
      → Held s (hs ++ f.hash_text b ∷ []) (c ++ b)
  Held-append s [] c b no_chunk e =
      subst (Held s (f.hash_text b ∷ [])) (append-nil b) (chunk_held b [] [] e no_chunk)
  Held-append s (h ∷ hs) c b (chunk_held b' c' hs' e' rest) e =
      subst (Held s (f.hash_text b' ∷ (hs ++ f.hash_text b ∷ []))) (sym (append_assoc b' c' b))
        (chunk_held b' (c' ++ b) (hs ++ f.hash_text b ∷ []) e' (Held-append s hs c' b rest e))

  pub set-own :
      (s t : S) (b : Bytes)
      → cli.set_key s (f.hash_text b) b ≡ ok t
      → cli.resolve t (f.hash_text b) ≡ some b
  set-own s t b h =
      r.resolve-set_key s t (f.hash_text b) b (f.hash_text b) h
      ∙ rw (bytes_eq_self (f.hash_text b)) refl

  same-hash : (b a : Bytes) → f.hash_text b ≡ f.hash_text a → (b ≡ a) ⊎ Collision f
  same-hash b a same = elim (Bool-cases (bytes_eq b a)) [
    | inl own ↦ inl (bytes_eq→eq b a own)
    | inr differs ↦ inr (b, a, λ e. absurd (ground (arith, e, differs, bytes_eq_self a)), same)
  ]

  set-other :
      (s t : S) (b a : Bytes)
      → cli.set_key s (f.hash_text b) b ≡ ok t
      → cli.resolve s (f.hash_text a) ≡ some a
      → (cli.resolve t (f.hash_text a) ≡ some a) ⊎ Collision f
  set-other s t b a h e =
      let stored = r.resolve-set_key s t (f.hash_text b) b (f.hash_text a) h in
      elim (Bool-cases (bytes_eq (f.hash_text b) (f.hash_text a))) [
        | inl same ↦ elim (same-hash b a (bytes_eq→eq (f.hash_text b) (f.hash_text a) same)) [
          | inl own ↦ inl (stored ∙ rw same (ap some own))
          | inr collision ↦ inr collision
        ]
        | inr differs ↦ inl (stored ∙ rw differs e)
      ]

  pub Held-set :
      (s t : S) (hs : List Bytes) (c b : Bytes)
      → cli.set_key s (f.hash_text b) b ≡ ok t
      → Held s hs c
      → Held t hs c ⊎ Collision f
  Held-set s t [] c b h no_chunk = inl no_chunk
  Held-set s t (x ∷ hs) c b h (chunk_held b' c' hs' e rest) = elim (set-other s t b b' h e) [
    | inr collision ↦ inr collision
    | inl still ↦ elim (Held-set s t hs c' b h rest) [
      | inr collision ↦ inr collision
      | inl kept ↦ inl (chunk_held b' c' hs still kept)
    ]
  ]

  pub Held-download :
      (s : S) (hs : List Bytes) (c : Bytes) → Held s hs c → download_children cli f s hs ≡ ok c
  unfolding download_children
  Held-download s [] c no_chunk = refl
  Held-download s (x ∷ hs) c (chunk_held b c' hs' e rest) = rw (e, Held-download s hs c' rest) refl

  -- what is marked as uploaded is stored, or a hash has collided
  unfoldable pub Marked : Progress S → Type 0
  Marked u =
      (b : Bytes)
      → contains_id u.uploaded (f.hash_text b) ≡ true
      → (cli.resolve u.client (f.hash_text b) ≡ some b) ⊎ Collision f

  grown : (hs : List Bytes) (h : Bytes) → is_empty cli f (hs ++ h ∷ []) ≡ false
  unfolding is_empty
  grown [] h = refl
  grown (x ∷ hs) h = refl

  Marked-more :
      (u : Progress S) (client : S)
      → Marked u
      → cli.set_key u.client (f.hash_text u.chunk) u.chunk ≡ ok client
      → (b : Bytes) → contains_id (f.hash_text u.chunk ∷ u.uploaded) (f.hash_text b) ≡ true
      → (cli.resolve client (f.hash_text b) ≡ some b) ⊎ Collision f
  unfolding Marked contains_id
  Marked-more u client marked stored b k =
      elim (Bool-cases (bytes_eq (f.hash_text u.chunk) (f.hash_text b))) [
        | inl own ↦
            elim (same-hash u.chunk b (bytes_eq→eq (f.hash_text u.chunk) (f.hash_text b) own)) [
              | inr collision ↦ inr collision
              | inl equal ↦ inl (
                  subst (λ x. cli.resolve client (f.hash_text x) ≡ some x) equal
                    (set-own u.client client u.chunk stored))
            ]
        | inr other ↦ elim (marked b (ground (arith, other, k))) [
          | inr collision ↦ inr collision
          | inl before ↦ set-other u.client client u.chunk b stored before
        ]
      ]

  -- Chunks are stored, at least one, and what is marked is.
  unfoldable pub Stores : Progress S → Bytes → Type 0
  Stores v c = Held v.client v.hashes c × Marked v × (is_empty cli f v.hashes ≡ false)

  pub upload_chunk-Held :
      (u v : Progress S) (c : Bytes)
      → Held u.client u.hashes c
      → Marked u
      → upload_chunk cli f u ≡ ok v
      → Stores v (c ++ u.chunk) ⊎ Collision f
  unfolding Stores Marked upload_chunk contains_id is_empty
  upload_chunk-Held u v c held marked h =
      elim (Bool-cases (contains_id u.uploaded (f.hash_text u.chunk))) [
        | inl known ↦
            let again : Progress S = record u { hashes = u.hashes ++ f.hash_text u.chunk ∷ [] } in
            let same : again ≡ v = ground (arith, known, h) in
            elim (marked u.chunk known) [
              | inr collision ↦ inr collision
              | inl there ↦ inl (
                  subst (λ (x : Progress S). Stores x (c ++ u.chunk)) same
                    (
                      Held-append u.client u.hashes c u.chunk held there,
                      marked,
                      grown u.hashes (f.hash_text u.chunk),
                    ))
            ]
        | inr new ↦
            let (client, stored, ran) =
              bind-ok (cli.set_key u.client (f.hash_text u.chunk) u.chunk) _ v (rw new at h) in
            let more : Progress S = record u {
              client = client;
              hashes = u.hashes ++ f.hash_text u.chunk ∷ [];
              uploaded = f.hash_text u.chunk ∷ u.uploaded;
            } in
            let same : more ≡ v = cc in
            elim (Held-set u.client client u.hashes c u.chunk stored held) [
              | inr collision ↦ inr collision
              | inl kept ↦ inl (
                  subst (λ (x : Progress S). Stores x (c ++ u.chunk)) same
                    (
                      Held-append client u.hashes c u.chunk kept
                          (set-own u.client client u.chunk stored),
                      Marked-more u client marked stored,
                      grown u.hashes (f.hash_text u.chunk),
                    ))
            ]
      ]
