-- ===== src/Pointer/Inherit.antt =====
-- The context of nested blocks: nearest ancestor first, for each index by itself.
use bee_rpc_over_grpc_py.Prelude.{
  ℕ, zero, suc, ◌≡◌, refl, ap, Option, none, some, List, [], ◌∷◌, ◌++◌, length, get_elem?, drop,
  arith, ltb, if◌then◌else◌, append-nil,
}
use bee_rpc_over_grpc_py.Varint.{Bytes}
use bee_rpc_over_grpc_py.Pointer.{context, inherit_hash_types}

get_elem?-length :
    {A : Type 0} (xs : List A) (i : ℕ)
    → get_elem? xs i ≡ (if ltb i (length xs) then get_elem? xs i else none)
get_elem?-length [] i = ground arith
get_elem?-length (x ∷ xs) zero = ground arith
get_elem?-length (x ∷ xs) (suc i) = ground (arith, get_elem?-length xs i)

nearest :
    {A : Type 0} (near far : List A) (i : ℕ)
    → get_elem? (near ++ drop (length near) far) i
      ≡ (if ltb i (length near) then get_elem? near i else get_elem? far i)
nearest [] far i = ground arith
nearest (x ∷ near) far zero = ground arith
nearest (x ∷ near) [] (suc i) = rw append-nil (get_elem?-length (x ∷ near) (suc i))
nearest (x ∷ near) (y ∷ far) (suc i) = ground (arith, nearest near far i)

-- Inside a block, index `i` is answered by the block's own types where they reach it, and by the
-- context around the block otherwise.
pub get_elem?-inherit_hash_types :
    (resolved : List Bytes) (inherited : Option (List Bytes)) (i : ℕ)
    → get_elem? (inherit_hash_types resolved inherited) i
      ≡ (if ltb i (length resolved) then get_elem? resolved i else get_elem? (context inherited) i)
unfolding inherit_hash_types
get_elem?-inherit_hash_types resolved inherited i = nearest resolved (context inherited) i

-- The context two blocks down depends on the chain and not on how it is grouped.
pub inherit_hash_types_assoc :
    (inner outer : List Bytes) (inherited : Option (List Bytes))
    → inherit_hash_types inner (some (inherit_hash_types outer inherited))
      ≡ inherit_hash_types (inherit_hash_types inner (some outer)) inherited
unfolding inherit_hash_types
inherit_hash_types_assoc inner outer inherited = chain inner outer (context inherited)
  where
    chain :
        (a b c : List Bytes)
        → a ++ drop (length a) (b ++ drop (length b) c)
          ≡ (a ++ drop (length a) b) ++ drop (length (a ++ drop (length a) b)) c
    chain [] b c = refl
    chain (x ∷ a) [] [] = simp append-nil
    chain (x ∷ a) [] (z ∷ c) = simp append-nil
    chain (x ∷ a) (y ∷ b) [] = simp append-nil
    chain (x ∷ a) (y ∷ b) (z ∷ c) = ap (λ t. x ∷ t) (chain a b c)
