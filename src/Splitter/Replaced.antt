-- ===== src/Splitter/Replaced.antt =====
-- What stands in the registry where `split_block` (src/bee_rpc/block_splitter.py) has moved the forms
-- of a block.
use bee_rpc_over_grpc_py.Prelude.{
  ◌≡◌, ◌≢◌, refl, sym, ap, ◌∙◌, none, some, [], ◌∷◌, bytes_eq, bytes_eq_refl, bytes_eq_sound,
  Bool-cases, inl, inr,
}
use bee_rpc_over_grpc_py.Outcome.{ok}
use bee_rpc_over_grpc_py.Varint.{Bytes}
use bee_rpc_over_grpc_py.Hex.{hex}
use bee_rpc_over_grpc_py.Environment.{Environment}
use bee_rpc_over_grpc_py.Store.{Directory, Node, file, dir, Store, find_node}
use bee_rpc_over_grpc_py.Splitter.{Moves, remove_node, replace_node}
use bee_rpc_over_grpc_py.Splitter.Written.{Present}
use bee_rpc_over_grpc_py.Splitter.Untouched.{Adds}

pub find_node-replace_node :
    (s : Store) (id : Bytes) (old new : Node)
    → find_node s id ≡ some old
    → find_node (replace_node s id new) id ≡ some new
unfolding find_node
find_node-replace_node [] id old new h = cc
find_node-replace_node ((name, n) ∷ rest) id old new h = elim (Bool-cases (bytes_eq name id)) [
  | inl here ↦ simp here
  | inr there ↦ simp there (find_node-replace_node rest id old new (rw there at h))
]

pub find_node-replace_node_other :
    (s : Store) (id other : Bytes) (new : Node)
    → id ≢ other
    → find_node (replace_node s id new) other ≡ find_node s other
unfolding find_node
find_node-replace_node_other [] id other new apart = refl
find_node-replace_node_other ((name, n) ∷ rest) id other new apart =
    elim (Bool-cases (bytes_eq name id)) [
      | inl here ↦ elim (Bool-cases (bytes_eq name other)) [
        | inl both ↦
            absurd (apart (sym (bytes_eq_sound name id here) ∙ bytes_eq_sound name other both))
        | inr not_other ↦ simp (here, not_other)
      ]
      | inr there ↦ elim (Bool-cases (bytes_eq name other)) [
        | inl found ↦ simp (there, found)
        | inr behind ↦ simp (there, behind) (find_node-replace_node_other rest id other new apart)
      ]
    ]

pub find_node-remove_node : (s : Store) (id : Bytes) → find_node (remove_node s id) id ≡ none
unfolding find_node
find_node-remove_node [] id = refl
find_node-remove_node ((name, n) ∷ rest) id = elim (Bool-cases (bytes_eq name id)) [
  | inl here ↦ simp here (find_node-remove_node rest id)
  | inr there ↦ simp there (find_node-remove_node rest id)
]

pub find_node-remove_node_other :
    (s : Store) (id other : Bytes)
    → id ≢ other
    → find_node (remove_node s id) other ≡ find_node s other
unfolding find_node
find_node-remove_node_other [] id other apart = refl
find_node-remove_node_other ((name, n) ∷ rest) id other apart =
    elim (Bool-cases (bytes_eq name id)) [
      | inl here ↦ elim (Bool-cases (bytes_eq name other)) [
        | inl both ↦
            absurd (apart (sym (bytes_eq_sound name id here) ∙ bytes_eq_sound name other both))
        | inr not_other ↦ simp (here, not_other) (find_node-remove_node_other rest id other apart)
      ]
      | inr there ↦ elim (Bool-cases (bytes_eq name other)) [
        | inl found ↦ simp (there, found)
        | inr behind ↦ simp (there, behind) (find_node-remove_node_other rest id other apart)
      ]
    ]

-- All but this block is as it was.
pub record KeepsOthers (block_id : Bytes) (s s' : Store) : Type 0 where
  pub others :
      (id : Bytes) (node : Node)
      → block_id ≢ id
      → find_node s id ≡ some node
      → find_node s' id ≡ some node

-- What a call leaves where a move failed behind the one by which the old form stepped aside: nothing
-- under the block's id, or its new form.
pub data Moved (moves : Moves) (block_id : Bytes) (s' : Store) : Type 0 where
  gone : moves.takes_place ≢ ok tt → find_node s' block_id ≡ none → Moved moves block_id s'
  left :
      (new : Directory)
      → moves.takes_place ≡ ok tt
      → moves.removed ≢ ok tt
      → find_node s' block_id ≡ some (dir new)
      → Moved moves block_id s'

-- How the registry has a sub-block behind the call: as it had it before the call, or as a file whose
-- content has the id for its hash; what stands under the id of the block that is split is its new form.
pub data Held (env : Environment) (s s' : Store) (block_id id : Bytes) : Type 0 where
  before :
      (node : Node)
      → find_node s id ≡ some node
      → find_node s' id ≡ some node
      → Held env s s' block_id id
  stored :
      (content : Bytes)
      → id ≡ hex (env.hash_factory content)
      → find_node s' id ≡ some (file content)
      → Held env s s' block_id id
  itself :
      (new : Directory)
      → id ≡ block_id
      → find_node s' id ≡ some (dir new)
      → Held env s s' block_id id

pub replaced-Held :
    (env : Environment) (s s1 : Store) (block_id id : Bytes) (old : Node) (new : Directory)
    → Adds env s s1
    → find_node s1 block_id ≡ some old
    → Present s1 id
    → Held env s (replace_node s1 block_id (dir new)) block_id id
replaced-Held env s s1 block_id id old new adds there (node, present) =
    elim (Bool-cases (bytes_eq block_id id)) [
      | inl same ↦
          let eq = bytes_eq_sound block_id id same in
          itself new (sym eq) (
            ap (λ t. find_node (replace_node s1 block_id (dir new)) t) (sym eq)
            ∙ find_node-replace_node s1 block_id old (dir new) there)
      | inr apart ↦
          let kept =
            find_node-replace_node_other s1 block_id id (dir new)
              (λ eq. cc (sym (rw (eq, bytes_eq_refl id) at apart)))
            ∙ present in
          elim (adds.fresh id node present) [
            | inl held ↦ before node held kept
            | inr (content, is_file, named) ↦ stored content named (kept ∙ ap some is_file)
          ]
    ]
