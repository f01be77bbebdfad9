-- ===== src/Pointer.antt =====
-- Block pointers and the rule by which their hash types are inherited: `resolve_hash_types`,
-- `inherit_hash_types`, `block_id_from_pointer`, `block_pointer` and `block_pointer_length` of
-- src/bee_rpc/utils.py, and `get_hash_from_block` of src/bee_rpc/client.py. The node's
-- `Enviroment.hash_type` is the first argument of what reads it.
pub mod Inherit
pub mod Resolve
pub mod Names
mod Runs
use bee_rpc_over_grpc_py.Prelude.{
  ℕ, suc, Bool, true, false, Option, none, some, List, [], ◌∷◌, ◌++◌, length, get_elem?, drop,
  bytes_eq, map_option, if◌then◌else◌, ◌==◌, ◌&&◌,
}
use bee_rpc_over_grpc_py.Outcome.{Result, ok, err, hash_type_error, ◌>>=◌}
use bee_rpc_over_grpc_py.Varint.{Bytes}
use bee_rpc_over_grpc_py.Hex.{hex, from_hex}
use bee_rpc_over_grpc_py.Wire.{Hash, Block, nonempty}

-- `tuple(inherited or ())`
abbrev pub context : Option (List Bytes) → List Bytes
context none = []
context (some types) = types

-- `inherited[index]` where it is there and not empty, and the HashTypeError otherwise.
abbrev pub inherited_at : Option Bytes → Result Bytes
inherited_at none = err hash_type_error
inherited_at (some t) = if nonempty t then ok t else err hash_type_error

-- The type of the hash at `index`.
unfoldable pub type_at : List Bytes → ℕ → Hash → Result Bytes
type_at inherited index h =
    if nonempty h.type then ok h.type else inherited_at (get_elem? inherited index)

unfoldable pub resolve_from : List Bytes → ℕ → List Hash → Result (List Bytes)
resolve_from inherited index [] = ok []
resolve_from inherited index (h ∷ hs) = do
  t ← type_at inherited index h
  ts ← resolve_from inherited (suc index) hs
  ok (t ∷ ts)

unfoldable pub resolve_hash_types : Block → Option (List Bytes) → Result (List Bytes)
unfolding resolve_from type_at
resolve_hash_types block inherited = resolve_from (context inherited) 0 block.hashes

unfoldable pub inherit_hash_types : List Bytes → Option (List Bytes) → List Bytes
inherit_hash_types resolved inherited = resolved ++ drop (length resolved) (context inherited)

-- An id, as text or as it stands in the pointer.
abbrev pub spell : Bool → Bytes → Bytes
spell hexadecimal value = if hexadecimal then hex value else value

-- The loop over `zip(block.hashes, types)`.
unfoldable pub first_of_type : Bytes → Bool → List Hash → List Bytes → Option Bytes
first_of_type hash_type hexadecimal (h ∷ hs) (t ∷ ts) =
    if bytes_eq t hash_type
    then some (spell hexadecimal h.value)
    else first_of_type hash_type hexadecimal hs ts
first_of_type hash_type hexadecimal _ _ = none

abbrev pub named_under : Bytes → Bool → List Hash → Result (List Bytes) → Option Bytes
named_under hash_type hexadecimal hashes (err e) = none
named_under hash_type hexadecimal hashes (ok types) =
    first_of_type hash_type hexadecimal hashes types

unfoldable pub block_id_from_pointer : Bytes → Block → Option (List Bytes) → Bool → Option Bytes
unfolding resolve_hash_types first_of_type
block_id_from_pointer hash_type block inherited hexadecimal =
    named_under hash_type hexadecimal block.hashes (resolve_hash_types block inherited)

-- The pointer for an id that is bytes already.
unfoldable pub pointer_of_bytes : Bytes → Bytes → Bool → Block
pointer_of_bytes hash_type value omit_types = record {
  hashes = record { type = if omit_types then [] else hash_type; value = value } ∷ [];
  previous_lengths_position = [];
}

-- The pointer for an id that is a text; `none` is the ValueError of `fromhex`.
unfoldable pub block_pointer : Bytes → Bytes → Bool → Option Block
unfolding pointer_of_bytes
block_pointer hash_type block_id omit_types =
    map_option (λ value. pointer_of_bytes hash_type value omit_types) (from_hex block_id)

-- `SerializeToString` is the protobuf library's, a parameter.
unfoldable pub block_pointer_length : (Block → Bytes) → Bytes → Bytes → Bool → Option ℕ
unfolding block_pointer
block_pointer_length serialize hash_type block_id omit_types =
    map_option (λ block. length (serialize block)) (block_pointer hash_type block_id omit_types)

-- The loop of `get_hash_from_block` where `internal_block` is not asked for.
unfoldable pub hash_of_type : Bytes → Bool → List Hash → Option Bytes
hash_of_type hash_type hexadecimal [] = none
hash_of_type hash_type hexadecimal (h ∷ hs) =
    if bytes_eq h.type hash_type
    then some (spell hexadecimal h.value)
    else hash_of_type hash_type hexadecimal hs

-- `len(block.hashes) == 1 and block.hashes[0].type == b''`
unfoldable pub internal_hash : Bool → List Hash → Option Bytes
internal_hash hexadecimal (h ∷ []) =
    if nonempty h.type then none else some (spell hexadecimal h.value)
internal_hash hexadecimal _ = none

unfoldable pub get_hash_from_block : Bytes → Block → Bool → Bool → Option Bytes
unfolding hash_of_type internal_hash
get_hash_from_block hash_type block internal_block hexadecimal =
    if internal_block
    then internal_hash hexadecimal block.hashes
    else hash_of_type hash_type hexadecimal block.hashes
