-- ===== src/Positions/Runs.antt =====
-- Concrete runs, and the theorems at concrete inputs.
use bee_rpc_over_grpc_py.Prelude.{◌≡◌, refl, [], ◌∷◌, some, none, bytes_eq, contains, arith}
use bee_rpc_over_grpc_py.Outcome.{ok, err, value_error}
use bee_rpc_over_grpc_py.Store.{num, text, array, nil, cons, Directory, file, dir, Store, find_node}
use bee_rpc_over_grpc_py.Store.Sizes.{getsize}
use bee_rpc_over_grpc_py.Positions.{
  PathList, entries_of_multiblock_directory, seek_expanded_position, get_varint_at_position,
}
use bee_rpc_over_grpc_py.Positions.Layout.{
  no_paths, single_file, directory, Locates, seek_expanded_position-Locates,
}

-- A directory of a part of two bytes, then the block a, then a part of one byte.
abbrev inner_dir : Directory
inner_dir = record {
  metadata =
      some
        (num 1 ∷ array (cons (text (97 ∷ [])) (cons (array (cons (num 0) nil)) nil)) ∷ num 2 ∷ []);
  parts = (1, 10 ∷ 3 ∷ []) ∷ (2, 9 ∷ []) ∷ [];
  wbp = none;
}

abbrev store : Store
store = (97 ∷ [], file (7 ∷ 8 ∷ [])) ∷ []

abbrev inner_paths : PathList
inner_paths = some (file (10 ∷ 3 ∷ [])) ∷ some (file (7 ∷ 8 ∷ [])) ∷ some (file (9 ∷ [])) ∷ []

abbrev paths : PathList
paths = some (file (1 ∷ [])) ∷ some (dir inner_dir) ∷ []

varint_inside : get_varint_at_position store 2 2 paths ≡ ok 3
unfolding get_varint_at_position bytes_eq contains
varint_inside = refl

too_far : seek_expanded_position store 2 6 paths ≡ err value_error
unfolding seek_expanded_position bytes_eq contains
too_far = refl

seek_expanded_position-Locates_example :
    Locates (seek_expanded_position store 2 4 paths) (1 ∷ 10 ∷ 3 ∷ 7 ∷ 8 ∷ 9 ∷ []) 4
unfolding entries_of_multiblock_directory getsize find_node bytes_eq contains
seek_expanded_position-Locates_example =
    seek_expanded_position-Locates store 1 paths (1 ∷ 10 ∷ 3 ∷ 7 ∷ 8 ∷ 9 ∷ []) 4
      (single_file (1 ∷ []) (
        directory inner_dir refl refl
          (single_file (10 ∷ 3 ∷ []) (single_file (7 ∷ 8 ∷ []) (single_file (9 ∷ []) no_paths)))
          no_paths))
      (omega arith)
