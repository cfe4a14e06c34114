-- ===== src/Tree/Uploads.antt =====
-- Upload of tree/tree.go, and Download after it.
use spacesvm.Prelude.{◌≡◌, ◌⊎◌, false, List, [], Bytes}
use spacesvm.Tree.{Client, TreeFormats, Progress, is_empty}
use spacesvm.Tree.Chunks.{IsReliable, Chunks, Held}

module _ {S : Type 0} (cli : Client S) (f : TreeFormats) (r : IsReliable cli f) where
  -- What the loop leaves: the chunks that are held, or a small file that is in no chunk yet.
  Loaded : Bytes → Progress S → Type 0
  Loaded c v =
      (Held cli f r v.client v.hashes c × (is_empty cli f v.hashes ≡ false))
      ⊎ ((v.hashes ≡ []) × (v.chunk ≡ c))
