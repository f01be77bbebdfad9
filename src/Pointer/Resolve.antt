-- ===== src/Pointer/Resolve.antt =====
-- What `resolve_hash_types` answers at each index, and when it raises.
use mathlib.Core.Path.{subst}
use native.Mathlib.Nat.{add-zero}
use bee_rpc_over_grpc_py.Prelude.{
  ℕ, zero, suc, ◌+◌, ◌≡◌, refl, sym, ◌⊎◌, inl, inr, true, false, Option, some, List, [], ◌∷◌,
  get_elem?, arith,
}
use bee_rpc_over_grpc_py.Outcome.{Error, Result, ok, err, hash_type_error, ◌>>=◌}
use bee_rpc_over_grpc_py.Varint.{Bytes}
use bee_rpc_over_grpc_py.Wire.{Hash, Block, nonempty}
use bee_rpc_over_grpc_py.Pointer.{context, type_at, resolve_from, resolve_hash_types}

-- `t` is the type of the hash `h` at `index`: its own, or else the inherited one.
abbrev pub Deduced : List Bytes → ℕ → Hash → Bytes → Type 0
Deduced inherited index h t =
    (nonempty h.type ≡ true) × (t ≡ h.type)
    ⊎ (nonempty h.type ≡ false) × (get_elem? inherited index ≡ some t) × (nonempty t ≡ true)

type_at-Deduced :
    (inherited : List Bytes) (index : ℕ) (h : Hash) (t : Bytes)
    → type_at inherited index h ≡ ok t
    → Deduced inherited index h t
unfolding type_at
type_at-Deduced inherited index h t e = ground arith

cons-eq-ok :
    (m : Result Bytes) (r : Result (List Bytes)) (us : List Bytes)
    → (m >>= λ t. r >>= λ ts. ok (t ∷ ts)) ≡ ok us
    → (t : Bytes) × (ts : List Bytes) × (m ≡ ok t) × (r ≡ ok ts) × (us ≡ t ∷ ts)
cons-eq-ok (ok t) (ok ts) us e = (t, ts, refl, refl, cc)
cons-eq-ok (ok t) (err x) us e = cc
cons-eq-ok (err x) r us e = cc

cons-eq-err :
    (m : Result Bytes) (r : Result (List Bytes)) (x : Error)
    → (m >>= λ t. r >>= λ ts. ok (t ∷ ts)) ≡ err x
    → (m ≡ err x) ⊎ (r ≡ err x)
cons-eq-err (ok t) (ok ts) x e = cc
cons-eq-err (ok t) (err y) x e = inr (cc)
cons-eq-err (err y) r x e = inl (cc)

resolve_from_sound :
    (inherited : List Bytes) (index : ℕ) (hs : List Hash) (ts : List Bytes)
    → resolve_from inherited index hs ≡ ok ts
    → (i : ℕ) (h : Hash) → get_elem? hs i ≡ some h
    → (t : Bytes) × (get_elem? ts i ≡ some t) × Deduced inherited (index + i) h t
unfolding resolve_from
resolve_from_sound inherited index [] ts e i h at = cc
resolve_from_sound inherited index (g ∷ hs) us e zero h at =
    let (t, ts, p, q, r) =
      cons-eq-ok (type_at inherited index g) (resolve_from inherited (suc index) hs) us e in
    let same : g ≡ h = cc in
    (
      t,
      rw r refl,
      rw (add-zero index)
          (subst (λ k. Deduced inherited index k t) same (type_at-Deduced _ _ _ _ p)),
    )
resolve_from_sound inherited index (g ∷ hs) us e (suc i) h at =
    let (t, ts, p, q, r) =
      cons-eq-ok (type_at inherited index g) (resolve_from inherited (suc index) hs) us e in
    let (u, a, d) = resolve_from_sound inherited (suc index) hs ts q i h at in
    (u, rw r a, subst (λ k. Deduced inherited k h u) (omega arith) d)

-- No type can be deduced for the hash `h` at `index`.
abbrev pub Undeducible : List Bytes → ℕ → Hash → Type 0
Undeducible inherited index h = (t : Bytes) → ¬ Deduced inherited index h t

type_at-Undeducible :
    (inherited : List Bytes) (index : ℕ) (h : Hash) (x : Error)
    → type_at inherited index h ≡ err x
    → (x ≡ hash_type_error) × Undeducible inherited index h
unfolding type_at
type_at-Undeducible inherited index h x e = (ground arith, λ t d. ground arith)

resolve_from_err :
    (inherited : List Bytes) (index : ℕ) (hs : List Hash) (x : Error)
    → resolve_from inherited index hs ≡ err x
    → (x ≡ hash_type_error)
      × (i : ℕ) × (h : Hash) × (get_elem? hs i ≡ some h)
      × Undeducible inherited (index + i) h
unfolding resolve_from
resolve_from_err inherited index [] x e = cc
resolve_from_err inherited index (g ∷ hs) x e =
    elim (cons-eq-err (type_at inherited index g) (resolve_from inherited (suc index) hs) x e) [
      | inl p ↦
          let (a, u) = type_at-Undeducible inherited index g x p in
          (a, 0, g, refl, subst (λ k. Undeducible inherited k g) (sym (add-zero index)) u)
      | inr q ↦
          let (a, i, h, at, u) = resolve_from_err inherited (suc index) hs x q in
          (a, suc i, h, at, subst (λ k. Undeducible inherited k h) (omega arith) u)
    ]

-- Where the types of a pointer resolve, each of its hashes has its own type if it states one, and
-- otherwise the nonempty type that the context has at the same index.
pub resolve_hash_types-Deduced :
    (block : Block) (inherited : Option (List Bytes)) (types : List Bytes)
    → resolve_hash_types block inherited ≡ ok types
    → (i : ℕ) (h : Hash) → get_elem? block.hashes i ≡ some h
    → (t : Bytes) × (get_elem? types i ≡ some t) × Deduced (context inherited) i h t
unfolding resolve_hash_types
resolve_hash_types-Deduced block inherited types e i h at =
    let (t, a, d) = resolve_from_sound (context inherited) 0 block.hashes types e i h at in
    (t, a, subst (λ k. Deduced (context inherited) k h t) (omega arith) d)

-- Where they do not, the error is HashTypeError, and there is a hash of the pointer for which no
-- type can be deduced.
pub resolve_hash_types-err :
    (block : Block) (inherited : Option (List Bytes)) (x : Error)
    → resolve_hash_types block inherited ≡ err x
    → (x ≡ hash_type_error)
      × (i : ℕ) × (h : Hash) × (get_elem? block.hashes i ≡ some h)
      × Undeducible (context inherited) i h
unfolding resolve_hash_types
resolve_hash_types-err block inherited x e =
    let (a, i, h, at, u) = resolve_from_err (context inherited) 0 block.hashes x e in
    (a, i, h, at, subst (λ k. Undeducible (context inherited) k h) (omega arith) u)
