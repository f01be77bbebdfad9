-- ===== src/Creation/ReadBack.antt =====
-- A created block can be read back, and the registry stays intact.
use bee_rpc_over_grpc_py.Prelude.{
  ℕ, zero, suc, ◌≤◌, ◌≡◌, refl, sym, ap, ◌∙◌, Bool, true, false, none, some, [], ◌∷◌, ◌++◌,
  append-nil, append_assoc, length, take, drop, length-drop, take-append-drop, All, bytes_eq,
  bytes_eq_refl, arith, Bool-cases, inl, inr,
}
use bee_rpc_over_grpc_py.Outcome.{ok}
use bee_rpc_over_grpc_py.Varint.{Bytes, IsByte}
use bee_rpc_over_grpc_py.Hex.{hex, from_hex-hex}
use bee_rpc_over_grpc_py.Environment.{Environment}
use bee_rpc_over_grpc_py.Pointer.{pointer_of_bytes}
use bee_rpc_over_grpc_py.Store.{
  file, Store, find_node, block_exists, read_block, verify_single_file_block,
}
use bee_rpc_over_grpc_py.Store.Chunks.{collect, collect-read_file}
use bee_rpc_over_grpc_py.Store.Expansion.{IsIntact}
use bee_rpc_over_grpc_py.Creation.{
  Disk, hash_chunk, update_loop, find_file, get_file_hash, move_to_block_dir, copy_to_block_dir,
  create_block,
}

update_loop-all :
    (fuel : ℕ) (fed content : Bytes)
    → length content ≤ fuel
    → update_loop fuel fed content ≡ fed ++ content
unfolding update_loop
update_loop-all fuel fed [] h = sym (append-nil fed)
update_loop-all zero fed (b ∷ bs) h = absurd (omega arith)
update_loop-all (suc fuel) fed (b ∷ bs) h =
    update_loop-all fuel (fed ++ take hash_chunk (b ∷ bs)) (drop hash_chunk (b ∷ bs))
      (omega (arith, length-drop hash_chunk (b ∷ bs)))
    ∙ append_assoc fed (take hash_chunk (b ∷ bs)) (drop hash_chunk (b ∷ bs))
    ∙ ap (λ t. fed ++ t) (take-append-drop hash_chunk (b ∷ bs))

module _ (env : Environment) where
  -- `get_file_hash` hashes the whole content, whatever its length.
  get_file_hash-content :
      (disk : Disk) (path content : Bytes)
      → find_file disk.files path ≡ some content
      → get_file_hash env disk.files path ≡ ok (hex (env.hash_factory content))
  unfolding get_file_hash
  get_file_hash-content disk path content h =
      rw (h, update_loop-all (length content) [] content (omega arith))

  missing :
      (store : Store) (id : Bytes)
      → find_node store id ≡ none
      → block_exists store id ≡ (false, false)
  unfolding block_exists
  missing store id h = rw h

  added : Store → Bytes → Store
  added store content = (hex (env.hash_factory content), file content) ∷ store

  created :
      (disk : Disk) (copy : Bool) (path content : Bytes)
      → find_file disk.files path ≡ some content
      → All IsByte (env.hash_factory content)
      → find_node disk.store (hex (env.hash_factory content)) ≡ none
      → let made = create_block env disk true path copy in
        (made.1
          ≡ ok (
            env.hash_factory content,
            pointer_of_bytes env.hash_type (env.hash_factory content) false,
          ))
        × (made.0.store ≡ added disk.store content)
  unfolding create_block move_to_block_dir copy_to_block_dir added
  created disk true path content h bytes new =
      rw
        (
          get_file_hash-content disk path content h,
          missing disk.store _ new,
          h,
          from_hex-hex (env.hash_factory content) bytes,
        )
        (rw (missing disk.store _ new) (refl, refl))
  created disk false path content h bytes new =
      rw
        (
          get_file_hash-content disk path content h,
          missing disk.store _ new,
          h,
          from_hex-hex (env.hash_factory content) bytes,
        )
        (rw (missing disk.store _ new) (refl, refl))

  read_added :
      (store : Store) (content : Bytes) (fuel depth : ℕ)
      → collect (
          read_block env
            (added store content)
            (suc fuel)
            (hex (env.hash_factory content))
            true
            depth)
        ≡ ok content
  unfolding added read_block find_node verify_single_file_block
  read_added store content fuel depth =
      rw (bytes_eq_refl (hex (env.hash_factory content)))
        (rw (bytes_eq_refl (hex (env.hash_factory content))) (collect-read_file content))

  added-IsIntact :
      (store : Store) (content : Bytes) → IsIntact env store → IsIntact env (added store content)
  unfolding added find_node verify_single_file_block
  added-IsIntact store content intact id other h =
      elim (Bool-cases (bytes_eq (hex (env.hash_factory content)) id)) [
        | inl here ↦ cc (rw here at h)
        | inr there ↦ intact id other (rw there at h)
      ]

  -- A file whose content no block of the registry holds yet, under a hash of bytes, becomes a
  -- block, by a copy or a move that works: the call returns its hash and a pointer with the node's
  -- hash type, and reading the block back gives the content.
  pub create_block-read_block :
      (disk : Disk) (copy : Bool) (path content : Bytes) (fuel depth : ℕ)
      → find_file disk.files path ≡ some content
      → All IsByte (env.hash_factory content)
      → find_node disk.store (hex (env.hash_factory content)) ≡ none
      → ((create_block env disk true path copy).1
          ≡ ok (
            env.hash_factory content,
            pointer_of_bytes env.hash_type (env.hash_factory content) false,
          ))
        × (collect (
              read_block env
                (create_block env disk true path copy).0.store
                (suc fuel)
                (hex (env.hash_factory content))
                true
                depth)
            ≡ ok content)
  create_block-read_block disk copy path content fuel depth h bytes new =
      let (made, stored) = created disk copy path content h bytes new in
      (made, rw stored (read_added disk.store content fuel depth))

  -- `create_block` of a file whose content no block holds yet, under a hash of bytes, by a copy or a
  -- move that works, keeps the registry intact: each single-file block, the new one
  -- included, holds the bytes that its id names.
  pub create_block-IsIntact :
      (disk : Disk) (copy : Bool) (path content : Bytes)
      → find_file disk.files path ≡ some content
      → All IsByte (env.hash_factory content)
      → find_node disk.store (hex (env.hash_factory content)) ≡ none
      → IsIntact env disk.store
      → IsIntact env (create_block env disk true path copy).0.store
  create_block-IsIntact disk copy path content h bytes new intact =
      let (made, stored) = created disk copy path content h bytes new in
      rw stored (added-IsIntact disk.store content intact)
