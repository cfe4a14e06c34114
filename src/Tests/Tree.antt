-- ===== src/Tests/Tree.antt =====
-- A service that keeps a list of keys and values, and a file of one chunk.
use spacesvm.Prelude.{Option, none, some, List, [], ◌∷◌, Bytes, bytes_eq, if◌then◌else◌}
use spacesvm.Errors.{ok}
use spacesvm.Tree.{Client, Root, TreeFormats, Read, eof}
use spacesvm.Tree.Chunks.{Chunks, only_bytes, without_bytes}

abbrev Stored : Type 0
Stored = List (Bytes × Bytes)

abbrev find : Stored → Bytes → Option Bytes
find [] j = none
find ((k, v) ∷ s) j = if bytes_eq k j then some v else find s j

abbrev drop_key : Stored → Bytes → Stored
drop_key [] k = []
drop_key ((j, v) ∷ s) k = let rest = drop_key s k in if bytes_eq j k then rest else (j, v) ∷ rest

abbrev listed : Client Stored
listed = record {
  set_key = λ s k v. ok ((k, v) ∷ s);
  delete_key = λ s k. ok (drop_key s k);
  resolve = find;
}

-- writes roots with contents or with one child
abbrev write_root : Bytes → List Bytes → Option Bytes
write_root c [] = some (0 ∷ c)
write_root [] (h ∷ []) = some (1 ∷ h)
write_root _ _ = none

abbrev read_root : Bytes → Option Root
read_root (b ∷ c) =
    if bytes_eq (b ∷ []) (0 ∷ [])
    then some (record { contents = c; children = [] })
    else some (record { contents = []; children = c ∷ [] })
read_root [] = none

abbrev plain : TreeFormats
plain = record {
  hash_text = λ b. b;
  marshal_root = λ r. write_root r.contents r.children;
  unmarshal_root = read_root;
}

abbrev file : List Read
file = only_bytes (5 ∷ 6 ∷ []) ∷ without_bytes (some eof) ∷ []

abbrev chunk_stored : Stored
chunk_stored = (1 ∷ 5 ∷ 6 ∷ [], 1 ∷ 5 ∷ 6 ∷ []) ∷ (5 ∷ 6 ∷ [], 5 ∷ 6 ∷ []) ∷ []
