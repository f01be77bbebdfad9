-- ===== src/Splitter/Rewrite.antt =====
-- `split_block` as a whole.
use bee_rpc_over_grpc_py.Prelude.{
  ℕ, suc, ◌≤◌, ◌≡◌, ◌≢◌, refl, ◌∙◌, Bool, true, Option, none, some, List, [], length, bytes_eq, ltb,
  leb, Bool-cases, ◌⊎◌, Option-cases, inl, inr,
}
use bee_rpc_over_grpc_py.Outcome.{Result, ok, err}
use bee_rpc_over_grpc_py.Varint.{Bytes}
use bee_rpc_over_grpc_py.Hex.{hex}
use bee_rpc_over_grpc_py.Wire.{Block}
use bee_rpc_over_grpc_py.Environment.{Environment}
use bee_rpc_over_grpc_py.Store.{Directory, Node, dir, Store, find_node, read_block}
use bee_rpc_over_grpc_py.Store.Chunks.{collect}
use bee_rpc_over_grpc_py.Store.Sizes.{direct_content_size}
use bee_rpc_over_grpc_py.ChunkReader.{Reader, new_reader}
use bee_rpc_over_grpc_py.Step.{Step, continue, ◌>>=◌}
use bee_rpc_over_grpc_py.Splitter.{
  Segment, Writer, new_writer, closed, entries_of, parts_of, direct_bytes, walk, Moves, move_all,
  check_split, unless_small, split_block,
}
use bee_rpc_over_grpc_py.Step.Keeping.{Keeps, Keeps-refl}
use bee_rpc_over_grpc_py.Splitter.Written.{Expands}
use bee_rpc_over_grpc_py.Splitter.Untouched.{Adds, Adds-refl, Grows, Grows-bind, walk-Grows}
use bee_rpc_over_grpc_py.Splitter.Replaced.{
  find_node-replace_node, find_node-replace_node_other, find_node-remove_node,
  find_node-remove_node_other, KeepsOthers, Moved, gone, left, Held,
}

-- A block that can be measured is there.
measured :
    (s : Store) (id : Bytes) (size : ℕ)
    → direct_content_size s id ≡ ok size
    → (node : Node) × (find_node s id ≡ some node)
unfolding direct_content_size
measured s id size h = elim (Option-cases (find_node s id)) [
  | inl missing ↦ cc (rw missing at h)
  | inr there ↦ there
]

module _ (env : Environment) {Descriptor Field : Type 0}
    (fields_by_number : Descriptor → ℕ → Option Field) (message_type : Field → Option Descriptor)
    (should_split : Field → ℕ → Bool) (serialize : Block → Bytes) (wbp_fuel : ℕ) (block_id : Bytes)
    (inherited : Option (List Bytes)) (limit : ℕ) where
  abbrev the_check : Reader → Writer → Step Directory
  the_check =
      check_split env fields_by_number message_type should_split serialize wbp_fuel block_id
        inherited limit

  check_split-Grows : (r : Reader) (w : Writer) → Grows env (the_check r w)
  check_split-Grows r w s = elim (Bool-cases (bytes_eq (hex (env.hash_factory r.fed)) block_id)) [
    | inl same ↦ rw same (elim (Bool-cases (ltb limit (direct_bytes (closed w)))) [
      | inl above ↦ rw above (Adds-refl env s)
      | inr within ↦ rw within (Adds-refl env s)
    ])
    | inr different ↦ rw different (Adds-refl env s)
  ]

  -- The new form of the block, where everything was found in order.
  Checked : Reader → Writer → Directory → Type 0
  Checked r w d =
      (hex (env.hash_factory r.fed) ≡ block_id)
      × (direct_bytes (closed w) ≤ limit)
      × (d.metadata ≡ some (entries_of (closed w)))
      × (d.parts ≡ parts_of (closed w))

  module _ (moves : Moves) (fuel : ℕ) (d : Option Descriptor) where
    abbrev the_walk : Store → Step (Reader × Writer)
    the_walk s =
        walk env fields_by_number message_type should_split fuel d none []
          (new_reader (read_block env s (suc (length s)) block_id true 1)) new_writer

    abbrev the_split : Step Bool
    the_split =
        split_block env fields_by_number message_type should_split serialize wbp_fuel block_id
          inherited limit moves fuel d

    -- The walk and the checks behind it.
    abbrev rebuilt : Store → Store × Result Directory
    rebuilt s = ((λ t. the_walk s t) >>= λ p. the_check p.0 p.1) s

    rebuilt-Adds : (s : Store) → Adds env s (rebuilt s).0
    rebuilt-Adds s =
        Grows-bind env (the_walk s) (λ p. the_check p.0 p.1)
          (walk-Grows env fields_by_number message_type should_split fuel d none []
            (new_reader (read_block env s (suc (length s)) block_id true 1)) new_writer)
          (λ p. check_split-Grows p.0 p.1) s

    abbrev put : Directory → Step Bool
    put d' = move_all moves.steps_aside moves.takes_place moves.removed block_id d'

    -- As it was, or half way through the moves.
    abbrev Left : Store → Store → Type 0
    Left s s' =
        Keeps s s'
        ⊎ ((moves.steps_aside ≡ ok tt) × KeepsOthers block_id s s' × Moved moves block_id s')

    move_all-Left :
        (s s1 : Store) (d' : Directory) (old : Node) (aside place gone_old : Result (Unit {0}))
        → moves.steps_aside ≡ aside
        → moves.takes_place ≡ place
        → moves.removed ≡ gone_old
        → Keeps s s1
        → find_node s1 block_id ≡ some old
        → (move_all aside place gone_old block_id d' s1).1 ≢ ok true
        → Left s (move_all aside place gone_old block_id d' s1).0
    move_all-Left s s1 d' old (err e) place gone_old a b c kept there failed = inl kept
    move_all-Left s s1 d' old (ok _) (err e) gone_old a b c kept there failed = inr (
      a,
      record {
        others = λ id node apart h.
            find_node-remove_node_other s1 block_id id apart ∙ kept.kept id node h;
      },
      gone (λ h. cc) (find_node-remove_node s1 block_id),
    )
    move_all-Left s s1 d' old (ok _) (ok _) (err e) a b c kept there failed = inr (
      a,
      record {
        others = λ id node apart h.
            find_node-replace_node_other s1 block_id id (dir d') apart ∙ kept.kept id node h;
      },
      left d' b (λ h. cc) (find_node-replace_node s1 block_id old (dir d') there),
    )
    move_all-Left s s1 d' old (ok _) (ok _) (ok _) a b c kept there failed = absurd (failed refl)

    put-Left :
        (s : Store) (first : Store × Result Directory) (old : Node)
        → find_node s block_id ≡ some old
        → Keeps s first.0
        → (continue first put).1 ≢ ok true
        → Left s (continue first put).0
    put-Left s (s1, ok d') old there kept failed =
        move_all-Left s s1 d' old moves.steps_aside moves.takes_place moves.removed refl refl refl
          kept (kept.kept block_id old there) failed
    put-Left s (s1, err e) old there kept failed = inl kept

    abbrev measured_split : Result ℕ → Step Bool
    measured_split m =
        unless_small env fields_by_number message_type should_split serialize wbp_fuel block_id
          inherited limit moves fuel d m

    unless_small-Left :
        (s : Store) (m : Result ℕ)
        → ((size : ℕ) → m ≡ ok size → (old : Node) × (find_node s block_id ≡ some old))
        → (measured_split m s).1 ≢ ok true
        → Left s (measured_split m s).0
    unless_small-Left s (err e) there failed = inl (Keeps-refl s)
    unless_small-Left s (ok size) there failed = elim (Bool-cases (leb size limit)) [
      | inl small ↦ rw small (inl (Keeps-refl s))
      | inr large ↦
          let (old, found) = there size refl in
          rw large (put-Left s (rebuilt s) old found (rebuilt-Adds s).keeps (rw large at failed))
    ]

    -- Where `split_block` does not answer True, the block is left as it was and so is all else that
    -- the registry held; or the old form has stepped aside and one of the two calls behind this raised:
    -- then all other blocks are as they were, and under the id there is nothing, where the new form
    -- could not take its place, and a new form, where the old one could not be removed.
    pub split_block-Keeps :
        (s : Store)
        → (the_split s).1 ≢ ok true
        → Keeps s (the_split s).0
          ⊎ ((moves.steps_aside ≡ ok tt)
              × KeepsOthers block_id s (the_split s).0
              × Moved moves block_id (the_split s).0)
    unfolding split_block
    split_block-Keeps s failed =
        unless_small-Left s (direct_content_size s block_id) (measured s block_id) failed

    -- The new form, as a statement of the store behind the call.
    Rewritten : Store → Store → Type 0
    Rewritten s s' =
        (bs : Bytes) × (segments : List Segment) × (new : Directory) × (collect
            (read_block env s (suc (length s)) block_id true 1)
          ≡ ok bs)
        × (hex (env.hash_factory bs) ≡ block_id)
        × (find_node s' block_id ≡ some (dir new))
        × (new.metadata ≡ some (entries_of segments))
        × (new.parts ≡ parts_of segments)
        × Expands env (Held env s s' block_id) segments bs
        × (direct_bytes segments ≤ limit)
