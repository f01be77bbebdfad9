-- ===== src/Tree/Runs.antt =====
-- Concrete runs, and the theorems at concrete inputs.
use bee_rpc_over_grpc_py.Prelude.{◌≡◌, refl, [], ◌∷◌}
use bee_rpc_over_grpc_py.Outcome.{ok, err, type_error}
use bee_rpc_over_grpc_py.Varint.{Bytes}
use bee_rpc_over_grpc_py.Tree.{Tree, empty, leaf, branch, add_pointers, create_lengths_tree}

abbrev id_a : Bytes
id_a = 97 ∷ []

abbrev id_b : Bytes
id_b = 98 ∷ []

abbrev with_a : Tree
with_a = branch 1 (leaf 4 id_a empty) empty

abbrev with_both : Tree
with_both = branch 1 (leaf 4 id_a (leaf 9 id_b empty)) empty

two_blocks :
    create_lengths_tree ((id_a, (1 ∷ 4 ∷ []) ∷ []) ∷ (id_b, (1 ∷ 9 ∷ []) ∷ []) ∷ []) ≡ ok with_both
unfolding create_lengths_tree
two_blocks = refl

through_a_block : add_pointers (1 ∷ 4 ∷ 6 ∷ []) id_b with_a ≡ err type_error
unfolding add_pointers
through_a_block = refl
