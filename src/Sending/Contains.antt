-- ===== src/Sending/Contains.antt =====
-- `contain_blocks` (src/bee_rpc/client.py), on a message as the builder sees it. `parse` is
-- `ParseFromString` of a pointer, the protobuf library's; `none` is its DecodeError.
use bee_rpc_over_grpc_py.Prelude.{
  ℕ, ◌≡◌, refl, Bool, true, false, ◌||◌, Option, none, some, List, Option-cases, inl, inr,
}
use bee_rpc_over_grpc_py.Outcome.{ok}
use bee_rpc_over_grpc_py.Varint.{Bytes}
use bee_rpc_over_grpc_py.Wire.{Block}
use bee_rpc_over_grpc_py.Environment.{Environment}
use bee_rpc_over_grpc_py.Store.{Store}
use bee_rpc_over_grpc_py.Creation.{is_block}
use bee_rpc_over_grpc_py.Builder.{
  Fields, end, message, bytes, text_field, primitive, Found, search_on_message,
}

module _ (parse : Bytes → Option Block) where
  abbrev parses : Option Block → Bool
  parses none = false
  parses (some block) = true

  -- Any byte string that parses as a pointer counts.
  unfoldable pub contain_blocks : Fields → Bool
  contain_blocks end = false
  contain_blocks (message size inner rest) = contain_blocks inner || contain_blocks rest
  contain_blocks (bytes value rest) = parses (parse value) || contain_blocks rest
  contain_blocks (text_field n rest) = contain_blocks rest
  contain_blocks (primitive size rest) = contain_blocks rest

  or_false : (a b : Bool) → (a || b) ≡ false → (a ≡ false) × (b ≡ false)
  or_false false b h = (refl, h)
  or_false true b h = cc

  not_block :
      (env : Environment) (value : Bytes) (blocks : List Bytes) (inherited : Option (List Bytes))
      → parses (parse value) ≡ false
      → is_block env parse value blocks inherited ≡ false
  unfolding is_block
  not_block env value blocks inherited h = elim (Option-cases (parse value)) [
    | inl fails ↦ rw (fails, is_block) refl
    | inr (block, is_there) ↦ cc (rw is_there at h)
  ]

  -- Where `contain_blocks` finds no block in a message, so that it goes out unframed if it is small, the
  -- search of the builder ends without an exception and finds none either, from whatever pointers and
  -- position it starts and whichever blocks it looks for.
  pub search_on_message-contain_blocks :
      (env : Environment) (store : Store) (byte_size : Block → ℕ) (blocks : List Bytes)
      (inherited : Option (List Bytes)) (fields : Fields) (pointers : List ℕ) (position : ℕ)
      (found : Found)
      → contain_blocks fields ≡ false
      → search_on_message env store parse byte_size blocks inherited pointers position fields found
        ≡ ok found
  unfolding search_on_message contain_blocks
  search_on_message-contain_blocks env store byte_size blocks inherited end pointers position found
        h =
      refl
  search_on_message-contain_blocks env store byte_size blocks inherited (message size inner rest)
        pointers position found h =
      let (inside, behind) = or_false (contain_blocks inner) (contain_blocks rest) h in
      rw
        (search_on_message-contain_blocks env store byte_size blocks inherited inner _ _ found
          inside)
        (search_on_message-contain_blocks env store byte_size blocks inherited rest pointers _ found
          behind)
  search_on_message-contain_blocks env store byte_size blocks inherited (bytes value rest) pointers
        position found h =
      let (here, behind) = or_false (parses (parse value)) (contain_blocks rest) h in
      rw (not_block env value blocks inherited here) (
        search_on_message-contain_blocks env store byte_size blocks inherited rest pointers _ found
          behind)
  search_on_message-contain_blocks env store byte_size blocks inherited (text_field n rest) pointers
        position found h =
      search_on_message-contain_blocks env store byte_size blocks inherited rest pointers _ found h
  search_on_message-contain_blocks env store byte_size blocks inherited (primitive size rest)
        pointers position found h =
      search_on_message-contain_blocks env store byte_size blocks inherited rest pointers _ found h
