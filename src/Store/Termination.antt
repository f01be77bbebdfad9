-- ===== src/Store/Termination.antt =====
-- Measuring a block always ends: a directory that contains itself is found.
use bee_rpc_over_grpc_py.Prelude.{
  ℕ, zero, suc, ◌+◌, ◌≤◌, ◌<◌, ◌≡◌, ◌≢◌, refl, true, false, Option, none, some, List, [], ◌∷◌,
  length, contains, bytes_eq, bytes_eq_sound, bytes_eq_refl, if◌then◌else◌, arith, Bool-cases,
  Option-cases, inl, inr,
}
use bee_rpc_over_grpc_py.Outcome.{Result, ok, err, recursion_error, ◌>>=◌}
use bee_rpc_over_grpc_py.Varint.{Bytes}
use bee_rpc_over_grpc_py.Store.{
  Json, num, text, array, other, nil, cons, Directory, Node, file, dir, Store, find_node, find_part,
  first_item,
}
use bee_rpc_over_grpc_py.Store.Sizes.{
  part_size, reference_size, entry_size, entries_size, directory_size, expanded_length,
  get_expanded_block_length,
}

-- The names of the registry that are not on the stack of the recursion.
unseen : List Bytes → Store → ℕ
unseen seen [] = 0
unseen seen ((name, node) ∷ rest) =
    if contains seen name then unseen seen rest else suc (unseen seen rest)

unseen-le :
    (seen : List Bytes) (id : Bytes) (store : Store) → unseen (id ∷ seen) store ≤ unseen seen store
unfolding unseen contains
unseen-le seen id [] = omega arith
unseen-le seen id ((name, node) ∷ rest) = ground (arith, unseen-le seen id rest)

contains-here : (id : Bytes) (ids : List Bytes) → contains (id ∷ ids) id ≡ true
unfolding contains
contains-here id ids = rw (bytes_eq_refl id)

unseen-lt :
    (seen : List Bytes) (id : Bytes) (store : Store) (node : Node)
    → find_node store id ≡ some node
    → contains seen id ≡ false
    → unseen (id ∷ seen) store < unseen seen store
unfolding unseen find_node
unseen-lt seen id [] node e h = cc
unseen-lt seen id ((name, other_node) ∷ rest) node e h = elim (Bool-cases (bytes_eq name id)) [
  | inl same ↦
      rw (bytes_eq_sound name id same)
        (rw (contains-here id seen, h) (omega (arith, unseen-le seen id rest)))
  | inr differs ↦ unseen-lt_later name rest (unseen-lt seen id rest node (rw differs at e) h)
]
  where
    unseen-lt_later :
        (name : Bytes) (rest : Store)
        → unseen (id ∷ seen) rest < unseen seen rest
        → (if contains (id ∷ seen) name
            then unseen (id ∷ seen) rest
            else suc (unseen (id ∷ seen) rest))
          < (if contains seen name then unseen seen rest else suc (unseen seen rest))
    unseen-lt_later name rest lt = unfold contains in ground arith

unseen-nil : (store : Store) → unseen [] store ≡ length store
unfolding unseen contains
unseen-nil [] = refl
unseen-nil ((name, node) ∷ rest) = omega (arith, unseen-nil rest)

abbrev Ends : Result ℕ → Type 0
Ends r = r ≢ err recursion_error

Ends-add : (a b : Result ℕ) → Ends a → Ends b → Ends (a >>= λ x. b >>= λ y. ok (x + y))
Ends-add (ok x) (ok y) p q = λ e. cc
Ends-add (ok x) (err e) p q = q
Ends-add (err e) b p q = p

module _ (size : Bytes → Result ℕ) (ends : (id : Bytes) → Ends (size id)) where
  reference-Ends : (e : Json) → Ends (reference_size size (first_item e))
  unfolding first_item
  reference-Ends (num n) = λ e. cc
  reference-Ends (text []) = λ e. cc
  reference-Ends (text (c ∷ cs)) = ends (c ∷ [])
  reference-Ends (array nil) = λ e. cc
  reference-Ends (array (cons (text t) xs)) = ends t
  reference-Ends (array (cons (num n) xs)) = λ e. cc
  reference-Ends (array (cons (array ys) xs)) = λ e. cc
  reference-Ends (array (cons other xs)) = λ e. cc
  reference-Ends other = λ e. cc

  entry-Ends : (d : Directory) (e : Json) → Ends (entry_size size d e)
  entry-Ends d (num n) = go (find_part d.parts n)
    where
      go : (o : Option Bytes) → Ends (part_size o)
      go none = λ e. cc
      go (some c) = λ e. cc
  entry-Ends d (text t) = reference-Ends (text t)
  entry-Ends d (array xs) = reference-Ends (array xs)
  entry-Ends d other = reference-Ends other

  entries-Ends : (d : Directory) (es : List Json) → Ends (entries_size size d es)
  unfolding entries_size
  entries-Ends d [] = λ e. cc
  entries-Ends d (e ∷ es) =
      Ends-add (entry_size size d e) (entries_size size d es) (entry-Ends d e) (entries-Ends d es)

  directory-Ends : (d : Directory) (o : Option (List Json)) → Ends (directory_size size d o)
  directory-Ends d none = λ e. cc
  directory-Ends d (some es) = entries-Ends d es

expanded_length-Ends :
    (store : Store) (fuel : ℕ) (seen : List Bytes) (id : Bytes)
    → unseen seen store < fuel
    → Ends (expanded_length store fuel seen id)
unfolding expanded_length
expanded_length-Ends store zero seen id h = elim h [ ]
expanded_length-Ends store (suc fuel) seen id h = elim (Bool-cases (contains seen id)) [
  | inl loops ↦ rw loops (λ e. cc)
  | inr new ↦ rw new (elim (Option-cases (find_node store id)) [
    | inl missing ↦ rw missing (λ e. cc)
    | inr (file c, e) ↦ rw e (λ p. cc)
    | inr (dir d, e) ↦ rw e (
        directory-Ends (expanded_length store fuel (id ∷ seen))
          (λ j.
            expanded_length-Ends store fuel (id ∷ seen) j
              (omega (arith, unseen-lt seen id store (dir d) e new)))
          d d.metadata)
  ])
]

-- `get_expanded_block_length` returns a length or raises one of the code's own errors on every
-- registry, also on one whose directories contain themselves: it never recurs without end.
pub get_expanded_block_length_ends :
    (store : Store) (id : Bytes) → get_expanded_block_length store id ≢ err recursion_error
unfolding get_expanded_block_length
get_expanded_block_length_ends store id =
    expanded_length-Ends store (suc (length store)) [] id (omega (arith, unseen-nil store))
