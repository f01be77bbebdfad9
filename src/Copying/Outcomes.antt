-- ===== src/Copying/Outcomes.antt =====
-- A copy gives the block, or leaves the target as it was.
use bee_rpc_over_grpc_py.Prelude.{
  suc, ◌≡◌, refl, Bool, true, false, Option, none, some, List, [], ◌∷◌, length, bytes_eq,
  bytes_eq_sound, bytes_eq_refl, if◌then◌else◌, Bool-cases, inl, inr, ◌⊎◌,
}
use bee_rpc_over_grpc_py.Outcome.{Result, ok, err}
use bee_rpc_over_grpc_py.Varint.{Bytes}
use bee_rpc_over_grpc_py.Hex.{hex}
use bee_rpc_over_grpc_py.Wire.{Block}
use bee_rpc_over_grpc_py.Environment.{Environment}
use bee_rpc_over_grpc_py.Store.{Store, block_exists, read_block}
use bee_rpc_over_grpc_py.Store.Chunks.{collect}
use bee_rpc_over_grpc_py.Creation.{Files, find_file}
use bee_rpc_over_grpc_py.Copying.{
  write_file, block_named, checked_copy, copy_named, copy_block_if_exists,
}

find_file-write_file :
    (files : Files) (path content : Bytes)
    → find_file (write_file files path content) path ≡ some content
unfolding find_file write_file
find_file-write_file [] path content = rw (bytes_eq_refl path) refl
find_file-write_file ((p, c) ∷ rest) path content = elim (Bool-cases (bytes_eq p path)) [
  | inl here ↦ simp here
  | inr there ↦ simp there (find_file-write_file rest path content)
]

module _ (env : Environment) (store : Store) (parse : Bytes → Option Block) (works : Bool) where
  -- Nothing was written, or the target has the content of the block.
  Fits : Files → Bytes → Option Bytes → Files × Bool → Type 0
  Fits files directory named ran =
      ((ran.1 ≡ false) × (ran.0 ≡ files))
      ⊎ ((id : Bytes) × (content : Bytes) × (ran.1 ≡ true)
          × (named ≡ some id)
          × (collect (read_block env store (suc (length store)) id true 1) ≡ ok content)
          × (find_file ran.0 directory ≡ some content)
          × (((block_exists store id).1 ≡ true) ⊎ (hex (env.hash_factory content) ≡ id)))

  write-Fits :
      (files : Files) (directory id content : Bytes) (named : Option Bytes) (does : Bool)
      → named ≡ some id
      → collect (read_block env store (suc (length store)) id true 1) ≡ ok content
      → ((block_exists store id).1 ≡ true) ⊎ (hex (env.hash_factory content) ≡ id)
      → Fits files directory named
          (if does then (write_file files directory content, true) else (files, false))
  unfolding Fits
  write-Fits files directory id content named true h k l =
      inr (id, content, refl, h, k, find_file-write_file files directory content, l)
  write-Fits files directory id content named false h k l = inl (refl, refl)

  checked_copy-Fits :
      (files : Files) (directory id : Bytes) (r : Result Bytes)
      → collect (read_block env store (suc (length store)) id true 1) ≡ r
      → Fits files directory
          (some id)
          (checked_copy env store parse works files directory id (block_exists store id).1 r)
  unfolding Fits
  checked_copy-Fits files directory id (err e) h = inl (refl, refl)
  checked_copy-Fits files directory id (ok content) h =
      elim (Bool-cases (block_exists store id).1) [
        | inl is_dir ↦
            rw is_dir (write-Fits files directory id content (some id) works refl h (inl is_dir))
        | inr is_file ↦ elim (Bool-cases (bytes_eq (hex (env.hash_factory content)) id)) [
          | inl same ↦
              rw (is_file, same)
                (write-Fits files directory id content (some id) works refl h
                  (inr (bytes_eq_sound (hex (env.hash_factory content)) id same)))
          | inr different ↦ rw (is_file, different) (inl (refl, refl))
        ]
      ]

  copy_named-Fits :
      (files : Files) (directory : Bytes) (named : Option Bytes)
      → Fits files directory named (copy_named env store parse works files directory named)
  unfolding Fits
  copy_named-Fits files directory none = inl (refl, refl)
  copy_named-Fits files directory (some []) = inl (refl, refl)
  copy_named-Fits files directory (some (c ∷ cs)) =
      checked_copy-Fits files directory (c ∷ cs) _ refl

  -- Either the call says no and no file is changed; or it says yes, the bytes name a block that can be
  -- read to its end, and the target has its content, which hashes to the id unless the block is a
  -- directory.
  pub copy_block_if_exists_fails_closed :
      (files : Files) (buffer directory : Bytes) (inherited : Option (List Bytes))
      → (((copy_block_if_exists env store parse works files buffer directory inherited).1 ≡ false)
          × ((copy_block_if_exists env store parse works files buffer directory inherited).0
              ≡ files))
        ⊎ ((id : Bytes) × (content : Bytes) × ((copy_block_if_exists env store parse works files
                buffer directory inherited).1
              ≡ true)
            × (block_named env store parse works inherited (parse buffer) ≡ some id)
            × (collect (read_block env store (suc (length store)) id true 1) ≡ ok content)
            × (find_file
                  (copy_block_if_exists env store parse works files buffer directory inherited).0
                  directory
                ≡ some content)
            × (((block_exists store id).1 ≡ true) ⊎ (hex (env.hash_factory content) ≡ id)))
  unfolding copy_block_if_exists Fits
  copy_block_if_exists_fails_closed files buffer directory inherited =
      copy_named-Fits files directory (block_named env store parse works inherited (parse buffer))
