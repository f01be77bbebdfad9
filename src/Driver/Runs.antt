-- ===== src/Driver/Runs.antt =====
-- Concrete runs, and the theorems at concrete inputs.
use bee_rpc_over_grpc_py.Prelude.{◌≡◌, refl, [], ◌∷◌, some, none, bytes_eq, contains}
use bee_rpc_over_grpc_py.Outcome.{ok, err, plain}
use bee_rpc_over_grpc_py.Varint.{Bytes, encode_bytes}
use bee_rpc_over_grpc_py.Prelude.{arith}
use bee_rpc_over_grpc_py.Varint.Rewrite.{IsVarint, last, more}
use bee_rpc_over_grpc_py.Hex.{from_hex}
use bee_rpc_over_grpc_py.Wire.{Block}
use bee_rpc_over_grpc_py.Store.{num, text, array, nil, cons, Directory, file, Store, find_node}
use bee_rpc_over_grpc_py.Store.Sizes.{getsize}
use bee_rpc_over_grpc_py.Driver.{bytes, path, set_varint_value}
use bee_rpc_over_grpc_py.Driver.File.{generate_wbp_file}
use bee_rpc_over_grpc_py.Driver.Rewriting.{buffer_size, set_varint_value-encode_bytes}

abbrev id_ab : Bytes
id_ab = 97 ∷ 98 ∷ []

abbrev store : Store
store = (id_ab, file (7 ∷ 8 ∷ 9 ∷ [])) ∷ []

-- A field whose length, at position 1, covers the block.
abbrev object : Directory
object = record {
  metadata =
      some (num 1 ∷ array (cons (text id_ab) (cons (array (cons (num 1) nil)) nil)) ∷ num 2 ∷ []);
  parts = (1, 10 ∷ 3 ∷ []) ∷ (2, 16 ∷ 1 ∷ []) ∷ [];
  wbp = none;
}

-- Stands in for the protobuf encoding of a pointer.
abbrev two_bytes : Block → Bytes
two_bytes block = 200 ∷ 201 ∷ []

generated :
    generate_wbp_file two_bytes (1 ∷ []) store 2 object none ≡ ok (10 ∷ 2 ∷ 200 ∷ 201 ∷ 16 ∷ 1 ∷ [])
unfolding generate_wbp_file bytes_eq from_hex contains
generated = refl

outside_parts : set_varint_value store 9 (path id_ab ∷ bytes (5 ∷ []) ∷ []) 2 ≡ err plain
unfolding set_varint_value bytes_eq
outside_parts = refl

-- The value 2 in two bytes, one more than it needs.
longer-IsVarint : IsVarint (0x82 ∷ 0x00 ∷ [])
longer-IsVarint = more 0x82 (omega arith) (omega arith) (last 0 (omega arith))

set_varint_value-encode_bytes_example :
    set_varint_value store 5
      (bytes (10 ∷ []) ∷ path id_ab ∷ bytes (1 ∷ 0x82 ∷ 0x00 ∷ 4 ∷ []) ∷ [])
      6
    ≡ ok (bytes (10 ∷ []) ∷ path id_ab ∷ bytes (1 ∷ 6 ∷ 4 ∷ []) ∷ [])
unfolding encode_bytes buffer_size getsize find_node bytes_eq
set_varint_value-encode_bytes_example =
    set_varint_value-encode_bytes store (bytes (10 ∷ []) ∷ path id_ab ∷ []) [] (1 ∷ []) (4 ∷ [])
      (0x82 ∷ 0x00 ∷ []) 4 6 longer-IsVarint refl
