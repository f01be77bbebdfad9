-- ===== src/Splitter.antt =====
-- Giving a stored block sub-blocks of its own: `_Writer`, `_store_payload`, `_walk` and `split_block`
-- (src/bee_rpc/block_splitter.py). The message descriptors and the policy are protobuf's and the
-- caller's, and stand as parameters. A step takes the registry to the registry that it leaves, also
-- where it raises: blocks that were stored stay. The block that is split is read as the registry
-- stands when the call begins. The recursion is on fuel: each step takes a byte of the block.
pub mod Written
pub mod Content
pub mod Untouched
pub mod Replaced
pub mod Rewrite
mod Runs
use bee_rpc_over_grpc_py.Prelude.{
  ℕ, zero, suc, ◌+◌, ◌/◌, ◌%◌, Bool, true, false, not, Option, none, some, List, [], ◌∷◌, ◌++◌,
  length, bytes_eq, ltb, leb, ◌==◌, if◌then◌else◌,
}
use bee_rpc_over_grpc_py.Outcome.{
  Error, Result, ok, err, not_found, split_error, block_id_mismatch, recursion_error,
}
use bee_rpc_over_grpc_py.Varint.{Bytes}
use bee_rpc_over_grpc_py.Hex.{hex}
use bee_rpc_over_grpc_py.Wire.{Block}
use bee_rpc_over_grpc_py.Environment.{Environment}
use bee_rpc_over_grpc_py.Store.{
  Json, num, text, array, nil, cons, numbers_json, Directory, Node, file, dir, Store, find_node,
  block_exists, read_block,
}
use bee_rpc_over_grpc_py.Store.Sizes.{direct_content_size}
use bee_rpc_over_grpc_py.Driver.File.{generate_wbp_file}
use bee_rpc_over_grpc_py.Step.{Step, pure, continue, ◌>>=◌}
use bee_rpc_over_grpc_py.ChunkReader.{Reader, new_reader, at_end, read, copy, varint}

-- A closed part with its index, or a block with the positions that lead to it.
pub data Segment : Type 0 where
  part : ℕ → Bytes → Segment
  block : Bytes → List ℕ → Segment

-- The directory that is written: what was closed, and the part that is open, its index first.
pub record Writer : Type 0 where
  pub segments : List Segment
  pub index : ℕ
  pub open_part : Bytes

abbrev pub new_writer : Writer
new_writer = record { segments = []; index = 1; open_part = [] }

-- `sum(1 for e in self.entries if isinstance(e, int))`
abbrev pub parts_count : List Segment → ℕ
parts_count [] = 0
parts_count (part i c ∷ rest) = suc (parts_count rest)
parts_count (block id ps ∷ rest) = parts_count rest

abbrev pub write : Bytes → Writer → Writer
write bytes w = record w { open_part = w.open_part ++ bytes }

unfoldable pub write_block : Bytes → List ℕ → Writer → Writer
write_block block_id positions w =
    let segments' = w.segments ++ (part w.index w.open_part ∷ block block_id positions ∷ []) in
    record { segments = segments'; index = parts_count segments' + 1; open_part = [] }

abbrev pub entries_of : List Segment → List Json
entries_of [] = []
entries_of (part i c ∷ rest) = num i ∷ entries_of rest
entries_of (block id ps ∷ rest) =
    array (cons (text id) (cons (array (numbers_json ps)) nil)) ∷ entries_of rest

abbrev pub parts_of : List Segment → List (ℕ × Bytes)
parts_of [] = []
parts_of (part i c ∷ rest) = (i, c) ∷ parts_of rest
parts_of (block id ps ∷ rest) = parts_of rest

abbrev pub closed : Writer → List Segment
closed w = w.segments ++ (part w.index w.open_part ∷ [])

-- `close`: the parts and the metadata.
abbrev pub close : Writer → Directory
close w = record {
  metadata = some (entries_of (closed w));
  parts = parts_of (closed w);
  wbp = none;
}

-- The bytes of the parts.
abbrev pub direct_bytes : List Segment → ℕ
direct_bytes [] = 0
direct_bytes (part i c ∷ rest) = length c + direct_bytes rest
direct_bytes (block id ps ∷ rest) = direct_bytes rest

-- A temporary file with the payload, renamed to its id unless the block is there.
abbrev pub publish : Bytes → Bytes → Bool × Bool → Store → Store
publish block_id payload (true, is_dir) store = store
publish block_id payload (false, is_dir) store = (block_id, file payload) ∷ store

-- The new form in the place of the old one.
abbrev pub replace_node : Store → Bytes → Node → Store
replace_node [] id node = []
replace_node ((name, n) ∷ rest) id node =
    if bytes_eq name id then (name, node) ∷ rest else (name, n) ∷ replace_node rest id node

abbrev pub remove_node : Store → Bytes → Store
remove_node [] id = []
remove_node ((name, n) ∷ rest) id =
    let others = remove_node rest id in if bytes_eq name id then others else (name, n) ∷ others

-- How the three calls end that put the new form in the place of the old one: the `os.replace` by
-- which the old form steps aside, the one by which the new form takes its place, and the removal of
-- the old form.
pub record Moves : Type 0 where
  pub steps_aside : Result (Unit {0})
  pub takes_place : Result (Unit {0})
  pub removed : Result (Unit {0})

-- The old form aside is not under the name of a block, and so not in the registry here; the temporary
-- directory with the new form is deleted where a call raises before it took its place.
abbrev pub move_all :
    (steps_aside takes_place removed : Result (Unit {0})) → Bytes → Directory → Step Bool
move_all (err e) takes_place removed block_id new s = (s, err e)
move_all (ok _) (err e) removed block_id new s = (remove_node s block_id, err e)
move_all (ok _) (ok _) (err e) block_id new s = (replace_node s block_id (dir new), err e)
move_all (ok _) (ok _) (ok _) block_id new s = (replace_node s block_id (dir new), ok true)

module _ (env : Environment) where
  unfoldable pub store_payload : Reader → ℕ → Step (Bytes × Reader)
  unfolding copy block_exists
  store_payload r n = do
    (payload, r') ← pure (copy n r)
    let block_id = hex (env.hash_factory payload)
    λ store. (publish block_id payload (block_exists store block_id) store, ok (block_id, r'))

  module _ {Descriptor Field : Type 0} (fields_by_number : Descriptor → ℕ → Option Field)
      (message_type : Field → Option Descriptor) (should_split : Field → ℕ → Bool) where
    abbrev pub Walk : Type 0
    Walk = Option Descriptor → Option ℕ → List ℕ → Reader → Writer → Step (Reader × Writer)

    abbrev pub copy_field : ℕ → Reader → Writer → Step (Reader × Writer)
    copy_field n r w = do (payload, r') ← pure (copy n r); pure (ok (r', write payload w))

    abbrev pub split_field : ℕ → List ℕ → Reader → Writer → Step (Reader × Writer)
    split_field n chain r w = do
      (block_id, r') ← store_payload r n
      pure (ok (r', write_block block_id chain w))

    -- What becomes of the payload of a length-delimited field; `chain` has its position.
    abbrev pub on_scalar : Bool → ℕ → List ℕ → Reader → Writer → Step (Reader × Writer)
    on_scalar true n chain r w = split_field n chain r w
    on_scalar false n chain r w = copy_field n r w

    abbrev pub on_message :
        Walk → Option Descriptor → Bool → ℕ → List ℕ → Reader → Writer → Step (Reader × Writer)
    on_message rec (some d) split n chain r w = rec (some d) (some (r.position + n)) chain r w
    on_message rec none split n chain r w = on_scalar split n chain r w

    abbrev pub on_field :
        Walk → Option Field → ℕ → List ℕ → Reader → Writer → Step (Reader × Writer)
    on_field rec none n chain r w = copy_field n r w
    on_field rec (some f) n chain r w =
        on_message rec (message_type f) (should_split f n) n chain r w

    abbrev pub field_of : Option Descriptor → ℕ → Option Field
    field_of none number = none
    field_of (some d) number = fields_by_number d number

    -- `wire_type == 2`
    abbrev pub delimited :
        Walk → Option Descriptor → List ℕ → ℕ → Reader → Writer → Step (Reader × Writer)
    delimited rec d chain number r w = do
      (raw_length, n, r') ← pure (varint r)
      on_field rec (field_of d number) n (chain ++ (r.position ∷ [])) r' (write raw_length w)

    abbrev pub fixed : ℕ → Reader → Writer → Step (Reader × Writer)
    fixed n r w = do (bytes, r') ← pure (read n r); pure (ok (r', write bytes w))

    abbrev pub number_field : Reader → Writer → Step (Reader × Writer)
    number_field r w = do (raw, value, r') ← pure (varint r); pure (ok (r', write raw w))

    abbrev pub on_wire_type :
        Walk → Option Descriptor → List ℕ → ℕ → ℕ → Reader → Writer → Step (Reader × Writer)
    on_wire_type rec d chain number wire_type r w =
        if wire_type == 0
        then number_field r w
        else if wire_type == 1
        then fixed 8 r w
        else if wire_type == 5
        then fixed 4 r w
        else if wire_type == 2
        then delimited rec d chain number r w
        else pure (err split_error)

    -- One round of the loop.
    unfoldable pub round :
        Walk → Option Descriptor → List ℕ → Reader → Writer → Step (Reader × Writer)
    unfolding varint read store_payload copy
    round rec d chain r w = do
      (raw_tag, tag, r') ← pure (varint r)
      on_wire_type rec d chain (tag / 8) (tag % 8) r' (write raw_tag w)

    -- The condition of the loop, negated.
    abbrev pub done : Option ℕ → Reader → Result (Bool × Reader)
    done none r = at_end r
    done (some end) r = ok (not (ltb r.position end), r)

    -- The check behind the loop.
    abbrev pub check_end : Option ℕ → Reader → Writer → Result (Reader × Writer)
    check_end none r w = ok (r, w)
    check_end (some end) r w = if r.position == end then ok (r, w) else err split_error

    unfoldable pub walk : ℕ → Walk
    unfolding round at_end
    walk zero d end chain r w = pure (err recursion_error)
    walk (suc fuel) d end chain r w = do
      (over, r1) ← pure (done end r)
      let next = round (walk fuel) d chain r1 w >>= λ p. walk fuel d end chain p.0 p.1
      if over then pure (check_end end r1 w) else next

    module _ (serialize : Block → Bytes) (wbp_fuel : ℕ) (block_id : Bytes)
        (inherited : Option (List Bytes)) (limit : ℕ) where
      abbrev pub with_wbp : Directory → Result Bytes → Result Directory
      with_wbp d (err e) = err e
      with_wbp d (ok bytes) = ok (record d { wbp = some bytes })

      -- What follows the walk; the directory takes the place of the block at the end.
      abbrev pub check_split : Reader → Writer → Step Directory
      check_split r w store =
          if bytes_eq (hex (env.hash_factory r.fed)) block_id
          then (if ltb limit (direct_bytes (closed w)) then (store, err split_error) else (
            store,
            with_wbp (close w)
                (generate_wbp_file serialize env.hash_type store wbp_fuel (close w) inherited),
          ))
          else (store, err block_id_mismatch)

      abbrev pub rewrite_block : Moves → ℕ → Option Descriptor → Step Bool
      rewrite_block moves fuel d store =
          continue
            (((λ s.
                  walk fuel d none []
                    (new_reader (read_block env store (suc (length store)) block_id true 1))
                    new_writer s)
                >>= λ p. check_split p.0 p.1)
              store)
            (move_all moves.steps_aside moves.takes_place moves.removed block_id)

      abbrev pub unless_small : Moves → ℕ → Option Descriptor → Result ℕ → Step Bool
      unless_small moves fuel d (err e) store = (store, err e)
      unless_small moves fuel d (ok size) store =
          if leb size limit then (store, ok false) else rewrite_block moves fuel d store

      unfoldable pub split_block : Moves → ℕ → Option Descriptor → Step Bool
      unfolding walk direct_content_size generate_wbp_file read_block
      split_block moves fuel d store =
          unless_small moves fuel d (direct_content_size store block_id) store
