-- ===== src/Pointer/Names.antt =====
-- Which id a pointer names.
use bee_rpc_over_grpc_py.Prelude.{
  ℕ, suc, ◌≡◌, refl, Bool, true, false, Option, none, some, List, [], ◌∷◌, All, bytes_eq,
  bytes_eq_refl, bytes_eq_sound, get_elem?, ap, inl, inr, Bool-cases, if◌then◌else◌, arith,
}
use bee_rpc_over_grpc_py.Outcome.{ok, Result-cases}
use bee_rpc_over_grpc_py.Varint.{Bytes, IsByte}
use bee_rpc_over_grpc_py.Hex.{hex, from_hex-hex}
use bee_rpc_over_grpc_py.Wire.{Hash, Block, nonempty}
use bee_rpc_over_grpc_py.Pointer.{
  spell, context, type_at, resolve_from, resolve_hash_types, first_of_type, block_id_from_pointer,
  pointer_of_bytes, block_pointer, hash_of_type, get_hash_from_block,
}

abbrev pub IsTyped : Hash → Type 0
IsTyped h = nonempty h.type ≡ true

abbrev types_of : List Hash → List Bytes
types_of [] = []
types_of (h ∷ hs) = h.type ∷ types_of hs

type_at-typed :
    (inherited : List Bytes) (index : ℕ) (h : Hash)
    → IsTyped h
    → type_at inherited index h ≡ ok h.type
unfolding type_at
type_at-typed inherited index h t = rw t

resolve_from-typed :
    (inherited : List Bytes) (index : ℕ) (hs : List Hash)
    → All IsTyped hs
    → resolve_from inherited index hs ≡ ok (types_of hs)
unfolding resolve_from
resolve_from-typed inherited index [] t = refl
resolve_from-typed inherited index (h ∷ hs) t =
    rw (type_at-typed inherited index h t.0, resolve_from-typed inherited (suc index) hs t.1)

first_of_type-typed :
    (hash_type : Bytes) (hexadecimal : Bool) (hs : List Hash)
    → first_of_type hash_type hexadecimal hs (types_of hs) ≡ hash_of_type hash_type hexadecimal hs
unfolding first_of_type hash_of_type
first_of_type-typed hash_type hexadecimal [] = refl
first_of_type-typed hash_type hexadecimal (h ∷ hs) =
    ground (arith, first_of_type-typed hash_type hexadecimal hs)

-- On a pointer that states all its types, the registry key does not depend on the context, and is
-- what `get_hash_from_block` reads off the wire.
pub block_id_from_pointer-typed :
    (hash_type : Bytes) (block : Block) (inherited : Option (List Bytes)) (hexadecimal : Bool)
    → All IsTyped block.hashes
    → block_id_from_pointer hash_type block inherited hexadecimal
      ≡ get_hash_from_block hash_type block false hexadecimal
unfolding block_id_from_pointer get_hash_from_block
block_id_from_pointer-typed hash_type block inherited hexadecimal t =
    rw (resolve_from-typed (context inherited) 0 block.hashes t)
      (first_of_type-typed hash_type hexadecimal block.hashes)

first_of_type_sound :
    (hash_type : Bytes) (hexadecimal : Bool) (hs : List Hash) (ts : List Bytes) (key : Bytes)
    → first_of_type hash_type hexadecimal hs ts ≡ some key
    → (i : ℕ) × (h : Hash) × (get_elem? hs i ≡ some h)
      × (get_elem? ts i ≡ some hash_type)
      × (key ≡ spell hexadecimal h.value)
unfolding first_of_type
first_of_type_sound hash_type hexadecimal [] ts key e = cc
first_of_type_sound hash_type hexadecimal (h ∷ hs) [] key e = cc
first_of_type_sound hash_type hexadecimal (h ∷ hs) (t ∷ ts) key e =
    elim (Bool-cases (bytes_eq t hash_type)) [
      | inl same ↦ (0, h, refl, ap some (bytes_eq_sound t hash_type same), cc (rw same at e))
      | inr other ↦
          let (i, g, a, b, c) =
            first_of_type_sound hash_type hexadecimal hs ts key (rw other at e) in
          (suc i, g, a, b, c)
    ]

-- An id that a pointer names is the value of one of its hashes, under whose type the registry of
-- this node is keyed.
pub block_id_from_pointer_sound :
    (hash_type : Bytes) (block : Block) (inherited : Option (List Bytes)) (hexadecimal : Bool)
    (key : Bytes)
    → block_id_from_pointer hash_type block inherited hexadecimal ≡ some key
    → (types : List Bytes) × (i : ℕ) × (h : Hash) × (resolve_hash_types block inherited ≡ ok types)
      × (get_elem? block.hashes i ≡ some h)
      × (get_elem? types i ≡ some hash_type)
      × (key ≡ spell hexadecimal h.value)
unfolding block_id_from_pointer
block_id_from_pointer_sound hash_type block inherited hexadecimal key e =
    elim (Result-cases (resolve_hash_types block inherited)) [
      | inl (types, p) ↦
          let (i, h, a, b, c) =
            first_of_type_sound hash_type hexadecimal block.hashes types key (rw p at e) in
          (types, i, h, p, a, b, c)
      | inr (x, p) ↦ cc (rw p at e)
    ]

-- The pointer that is written for a registry key of bytes, under a nonempty hash type, names that key
-- again: in the form that spells its type out in every context, and in the form that omits it where
-- the context begins with the type, and not at the top.
pub block_id_from_pointer-block_pointer :
    (hash_type value : Bytes) (rest : List Bytes) (inherited : Option (List Bytes))
    (omit_types : Bool)
    → All IsByte value
    → nonempty hash_type ≡ true
    → (block : Block) × (block_pointer hash_type (hex value) omit_types ≡ some block)
      × (block_id_from_pointer hash_type block (some (hash_type ∷ rest)) true ≡ some (hex value))
      × (block_id_from_pointer hash_type block (if omit_types then none else inherited) true
          ≡ (if omit_types then none else some (hex value)))
unfolding block_id_from_pointer block_pointer
block_id_from_pointer-block_pointer hash_type value rest inherited true bytes typed = (
  pointer_of_bytes hash_type value true,
  rw (block_pointer, from_hex-hex value bytes),
  rw (typed, bytes_eq_refl hash_type),
  refl,
)
block_id_from_pointer-block_pointer hash_type value rest inherited false bytes typed = (
  pointer_of_bytes hash_type value false,
  rw (block_pointer, from_hex-hex value bytes),
  rw (typed, bytes_eq_refl hash_type),
  rw (typed, bytes_eq_refl hash_type),
)
