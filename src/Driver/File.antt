-- ===== src/Driver/File.antt =====
-- `generate_wbp_file` (src/bee_rpc/block_driver.py). It returns what is written to
-- `wbp.bin`; of a call that raises while it writes, only the exception stands here.
use bee_rpc_over_grpc_py.Prelude.{
  ℕ, ◌+◌, Bool, true, false, Option, none, some, List, [], ◌∷◌, ◌++◌, map_option, bytes_eq, leb,
  if◌then◌else◌, ◌&&◌,
}
use bee_rpc_over_grpc_py.Outcome.{Result, ok, err, plain, not_found, value_error, ◌>>=◌}
use bee_rpc_over_grpc_py.Varint.{Bytes}
use bee_rpc_over_grpc_py.Wire.{Block}
use bee_rpc_over_grpc_py.Pointer.{block_pointer_length}
use bee_rpc_over_grpc_py.Store.{
  Json, num, text, array, Jsons, nil, cons, Directory, file, Store, find_node, find_part,
}
use bee_rpc_over_grpc_py.Store.Sizes.{part_size}
use bee_rpc_over_grpc_py.Tree.{create_lengths_tree}
use bee_rpc_over_grpc_py.Positions.{PathList}
use bee_rpc_over_grpc_py.Driver.{
  Dict, set_key, Piece, bytes, path, compute_wbp_lengths, validate_lengths_tree, regenerate_buffer,
}

-- What the loop over `_json` gathers.
pub record Loaded : Type 0 where
  pub file_list : PathList
  pub buffer : List Piece
  pub blocks : List (Bytes × List (List ℕ))
  pub pointer_lengths : Dict ℕ

abbrev nothing_loaded : Loaded
nothing_loaded = record { file_list = []; buffer = []; blocks = []; pointer_lengths = [] }

-- `all(isinstance(x, int) for x in e[1])`
abbrev all_numbers : Jsons → Option (List ℕ)
all_numbers nil = some []
all_numbers (cons (num n) xs) = map_option (λ ns. n ∷ ns) (all_numbers xs)
all_numbers (cons _ xs) = none

unfoldable pub is_ascending : List ℕ → Bool
is_ascending [] = true
is_ascending (n ∷ []) = true
is_ascending (n ∷ m ∷ ns) = leb n m && is_ascending (m ∷ ns)

-- The list, if it is not empty and ascends, and its last element.
abbrev last_of : ℕ → List ℕ → ℕ
last_of n [] = n
last_of n (m ∷ ns) = last_of m ns

abbrev checked_lengths : Option (List ℕ) → Option (List ℕ × ℕ)
checked_lengths none = none
checked_lengths (some []) = none
checked_lengths (some (n ∷ ns)) =
    if is_ascending (n ∷ ns) then some (n ∷ ns, last_of n ns) else none

-- The condition on an entry that is no number: a pair of a name and a list of numbers.
unfoldable pub checked_entry : Json → Option (Bytes × (List ℕ × ℕ))
unfolding is_ascending
checked_entry (array (cons (text name) (cons (array xs) nil))) =
    map_option (λ checked. (name, checked)) (checked_lengths (all_numbers xs))
checked_entry _ = none

-- `blocks[block_name]` gets one more list.
unfoldable pub append_lengths :
    List (Bytes × List (List ℕ)) → Bytes → List ℕ → List (Bytes × List (List ℕ))
append_lengths [] name ps = (name, ps ∷ []) ∷ []
append_lengths ((name', pss) ∷ rest) name ps =
    let more = append_lengths rest name ps in
    if bytes_eq name' name then (name', pss ++ (ps ∷ [])) ∷ rest else (name', pss) ∷ more

-- `wbp_length` is only told to `debug`, but a part that is missing ends the function there.
unfoldable pub wbp_length : Directory → List Json → Result ℕ
unfolding find_part
wbp_length d [] = ok 0
wbp_length d (num n ∷ es) = do
  size ← part_size (find_part d.parts n)
  rest ← wbp_length d es
  ok (size + rest)
wbp_length d (e ∷ es) = wbp_length d es

module _ (serialize : Block → Bytes) (hash_type : Bytes) (store : Store) (fuel : ℕ) where
  abbrev load_part : Loaded → Option Bytes → Result Loaded
  load_part l none = err not_found
  load_part l (some content) = ok (record l {
    file_list = l.file_list ++ (some (file content) ∷ []);
    buffer = l.buffer ++ (bytes content ∷ []);
  })

  abbrev load_pointer : Loaded → Bytes → List ℕ → ℕ → Option ℕ → Result Loaded
  load_pointer l name ps last none = err value_error
  load_pointer l name ps last (some pointer_length) = ok (record {
    file_list = l.file_list ++ (find_node store name ∷ []);
    buffer = l.buffer ++ (path name ∷ []);
    blocks = append_lengths l.blocks name ps;
    pointer_lengths = set_key l.pointer_lengths last pointer_length;
  })

  abbrev load_block : Bool → Loaded → Option (Bytes × (List ℕ × ℕ)) → Result Loaded
  load_block omit_types l none = err plain
  load_block omit_types l (some (name, (ps, last))) =
      load_pointer l name ps last (block_pointer_length serialize hash_type name omit_types)

  abbrev load_entry : Bool → Directory → Loaded → Json → Result Loaded
  load_entry omit_types d l (num n) = load_part l (find_part d.parts n)
  load_entry omit_types d l e = load_block omit_types l (checked_entry e)

  unfoldable pub load_entries : Bool → Directory → List Json → Loaded → Result Loaded
  unfolding find_part find_node checked_entry append_lengths set_key block_pointer_length
  load_entries omit_types d [] l = ok l
  load_entries omit_types d (e ∷ es) l = do
    l' ← load_entry omit_types d l e
    load_entries omit_types d es l'

  abbrev joined : List Bytes → Bytes
  joined [] = []
  joined (b ∷ bs) = b ++ joined bs

  abbrev generate : Directory → Bool → Option (List Json) → Result Bytes
  generate d omit_types none = err not_found
  generate d omit_types (some es) = do
    size ← wbp_length d es
    l ← load_entries omit_types d es nothing_loaded
    valid ← validate_lengths_tree store fuel l.file_list l.pointer_lengths l.blocks
    tree ← create_lengths_tree l.blocks
    lengths ← compute_wbp_lengths store fuel l.file_list l.pointer_lengths tree
    out ← regenerate_buffer store serialize hash_type lengths l.buffer omit_types
    ok (joined out)

  abbrev is_given : Option (List Bytes) → Bool
  is_given none = false
  is_given (some types) = true

  -- `inherited is not None` decides whether the pointers omit their types.
  unfoldable pub generate_wbp_file : Directory → Option (List Bytes) → Result Bytes
  unfolding wbp_length load_entries validate_lengths_tree create_lengths_tree compute_wbp_lengths
      regenerate_buffer
  generate_wbp_file d inherited = generate d (is_given inherited) d.metadata
