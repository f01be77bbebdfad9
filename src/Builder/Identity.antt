-- ===== src/Builder/Identity.antt =====
-- The id of an object against the directory that is written for it.
use mathlib.Core.Path.{subst}
use bee_rpc_over_grpc_py.Prelude.{
  ℕ, suc, ◌+◌, ◌≤◌, ◌≡◌, ◌∙◌, Bool, true, false, Option, none, some, List, [], ◌∷◌, length, ◌==◌,
  arith, Bool-cases, Option-cases, inl, inr, All, All-append,
}
use bee_rpc_over_grpc_py.Outcome.{Result, ok, err, bind-eq-ok, ok_injective}
use bee_rpc_over_grpc_py.Varint.{Bytes}
use bee_rpc_over_grpc_py.Wire.{Block}
use bee_rpc_over_grpc_py.Environment.{Environment}
use bee_rpc_over_grpc_py.Store.{
  Json, array, numbers_json, Directory, Node, file, dir, Store, find_node, find_part,
  read_directory, read_block,
}
use bee_rpc_over_grpc_py.Store.Chunks.{collect, collect-read_file}
use bee_rpc_over_grpc_py.Store.Expansion.{IsIntact}
use bee_rpc_over_grpc_py.Step.Growth.{Grows-refl}
use bee_rpc_over_grpc_py.Saving.Complete.{
  Reads, Built, own, sub, nothing, Built-later, collect-Built,
}
use bee_rpc_over_grpc_py.Builder.{
  expansion, contribution, fed_to_id, generate_id, write_parts, names, write_object, width,
  RealLengths, Fields, end, message, bytes, text_field, primitive, around_message, around_bytes,
  parsed, check_length, search_on_message, search_on_message_real, compute_real_lengths,
  generate_buffer, build_multiblock,
}
use bee_rpc_over_grpc_py.Driver.{get_key}
use bee_rpc_over_grpc_py.Tree.{create_lengths_tree}
use bee_rpc_over_grpc_py.Creation.{is_block, assert_container_covers_blocks}
use bee_rpc_over_grpc_py.Store.Sizes.{get_block_length}

module _ (env : Environment) (store : Store) (intact : IsIntact env store) where
  -- What a block adds to the id is what it reads as.
  expansion-Reads :
      (id payload : Bytes) (node : Node)
      → find_node store id ≡ some node
      → expansion env store (find_node store id) ≡ ok payload
      → Reads env store id payload
  unfolding read_block
  expansion-Reads id payload (file c) there h =
      rw (there, intact id c there) (collect-read_file c ∙ (rw there at h))
  expansion-Reads id payload (dir d) there h = rw there (rw there at h)

  -- The registry has the block.
  abbrev IsPresent : Bytes → Type 0
  IsPresent id = (node : Node) × (find_node store id ≡ some node)

  abbrev AllPresent : List (Bytes × List ℕ) → Type 0
  AllPresent container = All (λ w. IsPresent w.0) container

  contribution-Reads :
      (id payload : Bytes)
      → find_node store [] ≡ none
      → IsPresent id
      → contribution env store id ≡ ok payload
      → Reads env store id payload
  contribution-Reads [] payload nameless (node, there) h = cc
  contribution-Reads (c ∷ cs) payload nameless (node, there) h =
      expansion-Reads (c ∷ cs) payload node there h

  module _ (parse : Bytes → Option Block) (byte_size : Block → ℕ) (blocks : List Bytes)
      (inherited : Option (List Bytes)) (nameless : find_node store [] ≡ none) where
    -- Parts that are written from an index on are numbered above it.
    abbrev Above : ℕ → List (ℕ × Bytes) → Type 0
    Above i parts = (n : ℕ) (c : Bytes) → find_part parts n ≡ some c → suc i ≤ n

    Above-cons :
        (i : ℕ) (b : Bytes) (parts : List (ℕ × Bytes))
        → Above (suc i) parts
        → Above i ((suc i, b) ∷ parts)
    unfolding find_part
    Above-cons i b parts above n c h = elim (Bool-cases (suc i == n)) [
      | inl here ↦ ground (arith, here)
      | inr there ↦ omega (arith, above n c (rw there at h))
    ]

    -- The parts behind one more part.
    behind :
        (i : ℕ) (b : Bytes) (parts : List (ℕ × Bytes))
        → Above (suc i) parts
        → (n : ℕ) (c : Bytes) → find_part parts n ≡ some c
        → find_part ((suc i, b) ∷ parts) n ≡ some c
    unfolding find_part
    behind i b parts above n c h = elim (Bool-cases (suc i == n)) [
      | inl here ↦ absurd (ground (arith, here, above n c h))
      | inr there ↦ rw there h
    ]

    first_part :
        (i : ℕ) (b : Bytes) (parts : List (ℕ × Bytes))
        → find_part ((suc i, b) ∷ parts) (suc i) ≡ some b
    unfolding find_part
    first_part i b parts = ground arith

    abbrev written : ℕ → List Bytes → List (Bytes × List ℕ) → Result (List (ℕ × Bytes) × List Json)
    written i buffers container =
        write_parts env store parse byte_size blocks inherited i buffers container

    abbrev ids_of : List (Bytes × List ℕ) → List Bytes
    ids_of container = names env store parse byte_size blocks inherited container

    -- The parts and the entries that are written from an index on.
    abbrev Describes : ℕ → List (ℕ × Bytes) × List Json → Bytes → Type 0
    Describes i q fed = Built env store q.0 q.1 fed × Above i q.0

    Describes-same :
        (i : ℕ) (q q' : List (ℕ × Bytes) × List Json) (fed fed' : Bytes)
        → Describes i q fed
        → ok q ≡ ok q'
        → ok fed ≡ ok fed'
        → Describes i q' fed'
    Describes-same i q q' fed fed' d h k =
        subst (λ x. Describes i q' x) (ok_injective k)
          (subst (λ x. Describes i x fed) (ok_injective h) d)

    write_parts-Built :
        (i : ℕ) (buffers : List Bytes) (container : List (Bytes × List ℕ)) (fed : Bytes)
        (parts : List (ℕ × Bytes)) (entries : List Json)
        → AllPresent container
        → fed_to_id env store buffers (ids_of container) ≡ ok fed
        → written i buffers container ≡ ok (parts, entries)
        → Describes i (parts, entries) fed
    unfolding fed_to_id write_parts
    write_parts-Built i [] [] fed parts entries present h k =
        Describes-same i ([], []) (parts, entries) [] fed (nothing, λ n c e. unfold find_part in cc)
          k h
    write_parts-Built i [] (w ∷ container) fed parts entries present h k = cc
    write_parts-Built i (b ∷ buffers) [] fed parts entries present h k =
        let (rest, more, same) = bind-eq-ok (fed_to_id env store buffers []) _ fed h in
        let ((parts', entries'), wrote, made) =
          bind-eq-ok (written (suc i) buffers []) _ (parts, entries) k in
        let (built, above) =
          write_parts-Built (suc i) buffers [] rest parts' entries' present more wrote in
        Describes-same i _ (parts, entries) _ fed
          (
            own (suc i) b (first_part i b parts')
                (Built-later env (Grows-refl store) (behind i b parts' above) built),
            Above-cons i b parts' above,
          )
          made same
    write_parts-Built i (b ∷ buffers) ((id, pointers) ∷ container) fed parts entries (here, present)
          h k =
        let (content, contributed, h') = bind-eq-ok (contribution env store id) _ fed h in
        let (rest, more, same) =
          bind-eq-ok (fed_to_id env store buffers (ids_of container)) _ fed h' in
        let ((parts', entries'), wrote, made) =
          bind-eq-ok (written (suc i) buffers container) _ (parts, entries) k in
        let (built, above) =
          write_parts-Built (suc i) buffers container rest parts' entries' present more wrote in
        Describes-same i _ (parts, entries) _ fed
          (
            own (suc i) b (first_part i b parts') (
                sub id content (array (numbers_json pointers))
                  (contribution-Reads id content nameless here contributed)
                  (Built-later env (Grows-refl store) (behind i b parts' above) built)),
            Above-cons i b parts' above,
          )
          made same

    -- The directory reads as what the id is the hash of.
    write_object-Reads :
        (serialized : Bytes) (new_buff : List Bytes) (container : List (Bytes × List ℕ))
        (object_id : Bytes) (d : Directory)
        → AllPresent container
        → write_object env store parse byte_size blocks inherited serialized new_buff container
          ≡ ok (object_id, d)
        → (bs : Bytes) × (collect (
              read_directory env store
                (read_block env store (suc (length store)))
                d
                true
                1
                d.metadata)
            ≡ ok bs)
          × (env.hash_factory bs ≡ object_id)
    unfolding write_object generate_id
    write_object-Reads serialized new_buff container object_id d present h =
        let (id, named, h') =
          bind-eq-ok (generate_id env store new_buff (ids_of container)) _ (object_id, d) h in
        let (fed, took, hashed) =
          bind-eq-ok (fed_to_id env store new_buff (ids_of container)) _ id named in
        let ((parts, entries), wrote, made) =
          bind-eq-ok (written 0 new_buff container) _ (object_id, d) h' in
        let (built, above) =
          write_parts-Built 0 new_buff container fed parts entries present took wrote in
        let new : Directory = record {
          metadata = some entries;
          parts = parts;
          wbp = some serialized;
        } in
        let same : (id, new) ≡ (object_id, d) = ok_injective made in
        let reads = collect-Built env store new (λ x payload e. e) built in
        subst
          (λ q.
            (bs : Bytes) × (collect (
                read_directory env store (read_block env store (suc (length store))) q.1 true 1
                  q.1.metadata)
              ≡ ok bs)
            × (env.hash_factory bs ≡ q.0))
          same (fed, reads, ok_injective hashed)

    get_block_length-IsPresent :
        (id : Bytes) (n : ℕ) → get_block_length store id ≡ ok n → IsPresent id
    unfolding get_block_length
    get_block_length-IsPresent id n h = elim (Option-cases (find_node store id)) [
      | inl missing ↦ cc (rw missing at h)
      | inr there ↦ there
    ]

    -- A walk that adds blocks of the registry alone.
    abbrev Adds : (List (Bytes × List ℕ) → Result (List (Bytes × List ℕ))) → Type 0
    Adds f = (c c' : List (Bytes × List ℕ)) → AllPresent c → f c ≡ ok c' → AllPresent c'

    around_message-Adds :
        (r : Result (ℕ × (ℕ × Bool))) (size : ℕ)
        (inner rest : ℕ → List (Bytes × List ℕ) → Result (List (Bytes × List ℕ)))
        → ((n : ℕ) → Adds (inner n))
        → ((n : ℕ) → Adds (rest n))
        → Adds (around_message env store parse byte_size blocks inherited r size inner rest)
    around_message-Adds (err e) size inner rest f g c c' present h = g _ c c' present h
    around_message-Adds (ok (message_size, more)) size inner rest f g c c' present h =
        let (c1, gone, h') = bind-eq-ok (inner (1 + width message_size) c) _ c' h in
        g _ c1 c' (f _ c c1 present gone) h'

    around_bytes-Adds :
        (split : Bool) (lengths : RealLengths) (pointers : List ℕ) (position real_position : ℕ)
        (value : Bytes) (rest : ℕ → ℕ → List (Bytes × List ℕ) → Result (List (Bytes × List ℕ)))
        → ((n m : ℕ) → Adds (rest n m))
        → Adds (
            around_bytes env store parse byte_size blocks inherited split lengths pointers position
              real_position value rest)
    around_bytes-Adds false lengths pointers position real_position value rest g c c' present h =
        g _ _ c c' present h
    around_bytes-Adds true lengths pointers position real_position value rest g c c' present h =
        let ((block, id), read, h1) =
          bind-eq-ok (parsed env store parse byte_size blocks inherited (parse value)) _ c' h in
        let (n, measured, h2) = bind-eq-ok (get_block_length store id) _ c' h1 in
        let (checked, fine, h3) =
          bind-eq-ok
            (check_length env store parse byte_size blocks inherited n
              (get_key lengths (position + 1)))
            _ c' h2 in
        g _ _ _ c'
          (All-append (λ w. IsPresent w.0) c _ present
            (get_block_length-IsPresent id n measured, tt))
          h3

    search_on_message_real-Adds :
        (lengths : RealLengths) (fields : Fields) (pointers : List ℕ) (position real_position : ℕ)
        → Adds (
            search_on_message_real env store parse byte_size blocks inherited lengths pointers
              position real_position fields)
    unfolding search_on_message_real
    search_on_message_real-Adds lengths end pointers position real_position c c' present h =
        subst AllPresent (ok_injective h) present
    search_on_message_real-Adds lengths (message size inner rest) pointers position real_position c
          c' present h =
        around_message-Adds (get_key lengths (position + 1)) size _ _
          (λ n. search_on_message_real-Adds lengths inner _ _ _)
          (λ n. search_on_message_real-Adds lengths rest _ _ _) c c' present h
    search_on_message_real-Adds lengths (bytes value rest) pointers position real_position c c'
          present h =
        around_bytes-Adds (is_block env parse value blocks inherited) lengths pointers position
          real_position value _ (λ n m. search_on_message_real-Adds lengths rest _ _ _) c c' present
          h
    search_on_message_real-Adds lengths (text_field n rest) pointers position real_position c c'
          present h =
        search_on_message_real-Adds lengths rest _ _ _ c c' present h
    search_on_message_real-Adds lengths (primitive n rest) pointers position real_position c c'
          present h =
        search_on_message_real-Adds lengths rest _ _ _ c c' present h

    -- In a registry whose single files are intact and which has no empty name: the id that
    -- `build_multiblock` returns is the hash of the bytes that the directory it writes reads as, the
    -- blocks in it expanded.
    pub build_multiblock-Reads :
        (serialized : Bytes) (fields : Fields) (object_id : Bytes) (d : Directory)
        → build_multiblock env store parse byte_size blocks inherited serialized fields
          ≡ ok (object_id, d)
        → (bs : Bytes) × (collect (
              read_directory env store
                (read_block env store (suc (length store)))
                d
                true
                1
                d.metadata)
            ≡ ok bs)
          × (env.hash_factory bs ≡ object_id)
    unfolding build_multiblock
    build_multiblock-Reads serialized fields object_id d h =
        let (found, h1, rest1) =
          bind-eq-ok (search_on_message env store parse byte_size blocks inherited [] 0 fields _) _
            (object_id, d) h in
        let (covered, h2, rest2) =
          bind-eq-ok (assert_container_covers_blocks _ blocks) _ (object_id, d) rest1 in
        let (tree, h3, rest3) =
          bind-eq-ok (create_lengths_tree found.container) _ (object_id, d) rest2 in
        let (lengths, h4, rest4) =
          bind-eq-ok (compute_real_lengths env store tree serialized found.pointer_lengths) _
            (object_id, d) rest3 in
        let (container, h5, rest5) =
          bind-eq-ok
            (search_on_message_real env store parse byte_size blocks inherited lengths [] 0 0 fields
              [])
            _ (object_id, d) rest4 in
        write_object-Reads serialized (generate_buffer serialized lengths) container object_id d
          (search_on_message_real-Adds lengths fields [] 0 0 [] container tt h5) rest5
