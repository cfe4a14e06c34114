-- ===== src/Tree.antt =====
-- tree/tree.go: a file is stored in a space in chunks, each under its hash, with a root that lists the
-- hashes. The client (client/client.go) is a remote service, so a parameter: what it stores in the
-- space, key by key. Costs and messages to the terminal are left out.
pub mod Chunks
pub mod Uploads
use spacesvm.Prelude.{
  ℕ, zero, suc, Bool, true, false, Option, none, some, List, [], ◌∷◌, ◌++◌, Bytes, bytes_eq, length,
  ltb, leb, ◌==◌, ◌||◌, drop, if◌then◌else◌,
}
use spacesvm.Errors.{
  Error, Result, ok, err, panic, not_found, bad_encoding, value_empty, ◌>>=◌, ◌>>◌,
}
use spacesvm.Tx.{contains_id}

-- SignIssueRawTx with a set or a delete transaction for a key of the space, and Resolve
pub record Client (S : Type 0) : Type 0 where
  pub set_key : S → Bytes → Bytes → Result S
  pub delete_key : S → Bytes → Result S
  pub resolve : S → Bytes → Option Bytes

pub record Root : Type 0 where
  pub contents : Bytes
  pub children : List Bytes

-- the hash as a lower-case text, and the JSON of a root; `none` is an error
pub record TreeFormats : Type 0 where
  pub hash_text : Bytes → Bytes
  pub marshal_root : Root → Option Bytes
  pub unmarshal_root : Bytes → Option Root

-- the error of a Read
pub data Problem : Type 0 where
  eof other : Problem

-- What a Read of the file gives: the bytes that it puts at the start of the chunk, and perhaps an error.
pub record Read : Type 0 where
  pub got : Bytes
  pub problem : Option Problem

abbrev pub require {ℓ} : {A : Type ℓ} → Error → Option A → Result A
require e none = err e
require e (some a) = ok a

-- The chunk of the file, the hashes of the chunks before it, and those that are uploaded.
pub record Progress (S : Type 0) : Type 0 where
  pub client : S
  pub chunk : Bytes
  pub hashes : List Bytes
  pub uploaded : List Bytes

module _ {S : Type 0} (cli : Client S) (f : TreeFormats) where
  -- a whole chunk, or the last one of several
  unfoldable pub upload_chunk : Progress S → Result (Progress S)
  upload_chunk u =
      let k = f.hash_text u.chunk in
      if contains_id u.uploaded k
      then ok (record u { hashes = u.hashes ++ k ∷ [] })
      else (cli.set_key u.client k u.chunk >>= λ client.
          ok (record u { client = client; hashes = u.hashes ++ k ∷ []; uploaded = k ∷ u.uploaded }))

  abbrev pub is_eof : Option Problem → Bool
  is_eof (some eof) = true
  is_eof (some other) = false
  is_eof none = false

  abbrev pub is_problem : Option Problem → Bool
  is_problem (some _) = true
  is_problem none = false

  unfoldable pub is_empty : List Bytes → Bool
  is_empty [] = true
  is_empty (_ ∷ _) = false

  -- The loop of Upload over what the file's Reads give. It breaks at the end of the file and at an empty
  -- Read, whatever its error, with what that Read has put into the chunk.
  unfoldable pub upload_loop : ℕ → List Read → Progress S → Result (Progress S)
  unfolding is_empty
  upload_loop chunk_size [] u = ok u
  upload_loop chunk_size (r ∷ reads) u =
      let next : Progress S = record u { chunk = r.got } in
      let filled : Progress S = record u { chunk = r.got ++ drop (length r.got) u.chunk } in
      let further : Result (Progress S) =
        upload_chunk next >>= λ v. upload_loop chunk_size reads v in
      if is_eof r.problem || length r.got == 0
      then ok filled
      else if is_problem r.problem
      then err bad_encoding
      else if ltb (length r.got) chunk_size
      then (if is_empty u.hashes then ok next else upload_chunk next)
      else further

  -- the root of what was uploaded
  abbrev pub root_of : List Bytes → Bytes → Result Root
  root_of [] chunk =
      if length chunk == 0 then err value_empty else ok (record { contents = chunk; children = [] })
  root_of (h ∷ hashes) chunk = ok (record { contents = []; children = h ∷ hashes })

  abbrev pub zeros : ℕ → Bytes
  zeros zero = []
  zeros (suc n) = 0 ∷ zeros n

  -- Upload; the key of the root stands for the path in the space
  unfoldable pub upload : ℕ → List Read → S → Result (Bytes × S)
  upload chunk_size reads s = do
    done ←
        upload_loop chunk_size reads
          (record { client = s; chunk = zeros chunk_size; hashes = []; uploaded = [] })
    root ← root_of done.hashes done.chunk
    rb ← require bad_encoding (f.marshal_root root)
    last ← cli.set_key done.client (f.hash_text rb) rb
    ok (f.hash_text rb, last)

  -- the chunks of a root, one after the other
  unfoldable pub download_children : S → List Bytes → Result Bytes
  download_children s [] = ok []
  download_children s (h ∷ hashes) = do
    b ← require not_found (cli.resolve s h)
    rest ← download_children s hashes
    ok (b ++ rest)

  abbrev pub download_root : S → Root → Result Bytes
  download_root s r =
      if leb 1 (length r.contents)
      then ok r.contents
      else if is_empty r.children
      then err value_empty
      else download_children s r.children

  -- Download: what is written to the file
  unfoldable pub download : S → Bytes → Result Bytes
  unfolding is_empty
  download s key = do
    rb ← require not_found (cli.resolve s key)
    r ← require bad_encoding (f.unmarshal_root rb)
    download_root s r

  -- the loop of Delete
  unfoldable pub delete_children : List Bytes → List Bytes → S → Result S
  delete_children deleted [] s = ok s
  delete_children deleted (h ∷ hashes) s = elim (contains_id deleted h) [
    | true ↦ delete_children deleted hashes s
    | false ↦ cli.delete_key s h >>= λ t. delete_children (h ∷ deleted) hashes t
  ]

  -- Delete
  unfoldable pub delete : S → Bytes → Result S
  delete s key = do
    rb ← require not_found (cli.resolve s key)
    r ← require bad_encoding (f.unmarshal_root rb)
    t ← delete_children [] r.children s
    cli.delete_key t key
