-- ===== src/Step/Growth.antt =====
-- What can be read from a registry can be read from a larger one.
use bee_rpc_over_grpc_py.Prelude.{
  ℕ, zero, suc, ◌≤◌, Bool, true, Option, none, some, List, [], ◌∷◌, length, arith, Option-cases,
  inl, inr,
}
use bee_rpc_over_grpc_py.Outcome.{Result, ok, err}
use bee_rpc_over_grpc_py.Trace.{Trace}
use bee_rpc_over_grpc_py.Varint.{Bytes}
use bee_rpc_over_grpc_py.Environment.{Environment}
use bee_rpc_over_grpc_py.Store.{
  Json, num, text, array, other, Directory, Node, file, dir, Store, find_node, Item, read_reference,
  read_entry, read_entries, read_directory, read_node, read_block, verify_single_file_block,
}
use bee_rpc_over_grpc_py.Store.Chunks.{collect}
use bee_rpc_over_grpc_py.Store.Framing.{Refines, Refines-then_from}
use bee_rpc_over_grpc_py.Step.Keeping.{Keeps, Keeps-refl, Keeps-trans}

-- The second registry has what the first one has, and no fewer names.
pub record Grows (s s' : Store) : Type 0 where
  pub keeps : Keeps s s'
  pub longer : length s ≤ length s'

pub Grows-refl : (s : Store) → Grows s s
Grows-refl s = record { keeps = Keeps-refl s; longer = omega arith }

pub Grows-trans : (s s' s'' : Store) → Grows s s' → Grows s' s'' → Grows s s''
Grows-trans s s' s'' h k = record {
  keeps = Keeps-trans s s' s'' h.keeps k.keeps;
  longer = omega (arith, h.longer, k.longer);
}

module _ (env : Environment) (s s' : Store) where
  abbrev Reading : Type 0
  Reading = Bytes → Bool → ℕ → Trace Item

  abbrev Carries : Reading → Reading → Type 0
  Carries rec rec' = (id : Bytes) → Refines (rec id true 1) (rec' id true 1)

  module _ (rec rec' : Reading) (carries : Carries rec rec') where
    reference-Carries :
        (r : Result Json) (ps : Result (List ℕ))
        → Refines (read_reference env s rec true 1 r ps) (read_reference env s' rec' true 1 r ps)
    reference-Carries (err x) ps bs e = e
    reference-Carries (ok (text id)) ps bs e = carries id bs e
    reference-Carries (ok (num n)) ps bs e = e
    reference-Carries (ok (array xs)) ps bs e = e
    reference-Carries (ok other) ps bs e = e

    entry-Carries :
        (d : Directory) (j : Json)
        → Refines (read_entry env s rec d true 1 j) (read_entry env s' rec' d true 1 j)
    entry-Carries d (num n) = λ bs e. e
    entry-Carries d (text t) = reference-Carries _ _
    entry-Carries d (array xs) = reference-Carries _ _
    entry-Carries d other = reference-Carries _ _

    entries-Carries :
        (d : Directory) (es : List Json)
        → Refines (read_entries env s rec d true 1 es) (read_entries env s' rec' d true 1 es)
    unfolding read_entries
    entries-Carries d [] = λ bs e. e
    entries-Carries d (j ∷ es) =
        Refines-then_from (read_entry env s rec d true 1 j) (read_entry env s' rec' d true 1 j)
          (read_entries env s rec d true 1 es) (read_entries env s' rec' d true 1 es)
          (entry-Carries d j) (entries-Carries d es)

    directory-Carries :
        (d : Directory) (o : Option (List Json))
        → Refines (read_directory env s rec d true 1 o) (read_directory env s' rec' d true 1 o)
    directory-Carries d none = λ bs e. e
    directory-Carries d (some es) = entries-Carries d es

    node-Carries :
        (id : Bytes) (node : Node)
        → Refines
            (read_node env s rec id true 1 (some node))
            (read_node env s' rec' id true 1 (some node))
    unfolding verify_single_file_block
    node-Carries id (file c) = λ bs e. e
    node-Carries id (dir d) = directory-Carries d d.metadata

  missing-Refines :
      (rec : Reading) (t : Trace Item) (id : Bytes) → Refines (read_node env s rec id true 1 none) t
  missing-Refines rec t id bs e = unfold collect in cc

  pub read_block-Grows :
      (fuel fuel' : ℕ) (id : Bytes)
      → Grows s s'
      → fuel ≤ fuel'
      → Refines (read_block env s fuel id true 1) (read_block env s' fuel' id true 1)
  unfolding read_block
  read_block-Grows zero fuel' id grows more = λ bs e. unfold collect in cc
  read_block-Grows (suc fuel) zero id grows more = absurd (omega (arith, more))
  read_block-Grows (suc fuel) (suc fuel') id grows more = elim (Option-cases (find_node s id)) [
    | inl missing ↦ rw missing (missing-Refines (read_block env s fuel) _ id)
    | inr (node, there) ↦
        rw (there, grows.keeps.kept id node there)
          (node-Carries (read_block env s fuel) (read_block env s' fuel')
            (λ x. read_block-Grows fuel fuel' x grows (omega (arith, more))) id node)
  ]
