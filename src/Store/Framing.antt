-- ===== src/Store/Framing.antt =====
-- Framing the blocks of a stream adds markers and changes no byte.
use bee_rpc_over_grpc_py.Prelude.{
  ℕ, zero, suc, ◌≡◌, refl, sym, ap, ◌∙◌, Bool, true, false, not, Option, none, some, List, [], ◌∷◌,
  ◌++◌, append-nil, ltb,
}
use bee_rpc_over_grpc_py.Outcome.{Result, ok, err}
use bee_rpc_over_grpc_py.Trace.{Trace, stop, next, ◌then_from◌}
use bee_rpc_over_grpc_py.Varint.{Bytes}
use bee_rpc_over_grpc_py.Wire.{Block}
use bee_rpc_over_grpc_py.Environment.{Environment}
use bee_rpc_over_grpc_py.Pointer.{block_pointer}
use bee_rpc_over_grpc_py.Store.{
  Json, num, text, array, other, Directory, Node, file, dir, Store, find_node, Item, marker, framed,
  read_reference, read_entry, read_entries, read_directory, read_node, read_block,
}
use bee_rpc_over_grpc_py.Store.Chunks.{collect, join, collect-then_from}

-- Where `t` is read to its end, `u` is too, with the same bytes.
abbrev pub Refines : Trace Item → Trace Item → Type 0
Refines t u = (bs : Bytes) → collect t ≡ ok bs → collect u ≡ ok bs

pub join-eq-ok :
    (a b : Result Bytes) (bs : Bytes)
    → join a b ≡ ok bs
    → (x : Bytes) × (y : Bytes) × (a ≡ ok x) × (b ≡ ok y) × (bs ≡ x ++ y)
join-eq-ok (ok x) (ok y) bs e = (x, y, refl, refl, cc)
join-eq-ok (ok x) (err z) bs e = cc
join-eq-ok (err z) b bs e = cc

pub Refines-then_from :
    (t t' u u' : Trace Item)
    → Refines t t'
    → Refines u u'
    → Refines (t then_from u) (t' then_from u')
Refines-then_from t t' u u' f g bs e =
    let (x, y, p, q, r) = join-eq-ok (collect t) (collect u) bs (sym (collect-then_from t u) ∙ e) in
    collect-then_from t' u' ∙ rw (f x p, g y q, r)

-- The block between its markers emits the bytes of the block.
collect-marked :
    (b : Block) (t : Trace Item)
    → collect (next (marker b) (t then_from next (marker b) stop)) ≡ collect t
collect-marked b t =
    unfold collect in
    collect-then_from t (next (marker b) stop) ∙ (unfold collect in all_of (collect t))
  where
    all_of : (r : Result Bytes) → join r (ok []) ≡ r
    all_of (ok x) = ap ok (append-nil x)
    all_of (err e) = refl

module _ (env : Environment) (store : Store) where
  framed-Refines :
      (o : Option Block) (ps : Result (List ℕ)) (body flat : Trace Item)
      → Refines body flat
      → Refines (framed env store o ps body) flat
  framed-Refines none ps body flat h bs e = unfold collect in cc
  framed-Refines (some b) (err x) body flat h bs e = unfold collect in cc
  framed-Refines (some b) (ok ps) body flat h bs e =
      h bs (sym (collect-marked (record b { previous_lengths_position = ps }) body) ∙ e)

  -- Whatever the framing asked of `rec`, it emits the bytes that it emits flat.
  abbrev Flattens : (Bytes → Bool → ℕ → Trace Item) → Type 0
  Flattens rec =
      (id : Bytes) (ignore_blocks : Bool) (depth : ℕ)
      → Refines (rec id ignore_blocks depth) (rec id true 1)

  module _ (rec : Bytes → Bool → ℕ → Trace Item) (flattens : Flattens rec) where
    reference-Refines :
        (ignore_blocks : Bool) (depth : ℕ) (r : Result Json) (ps : Result (List ℕ))
        → Refines
            (read_reference env store rec ignore_blocks depth r ps)
            (read_reference env store rec true 1 r ps)
    reference-Refines ignore_blocks depth (err x) ps bs e = e
    reference-Refines true depth (ok (text id)) ps bs e = e
    reference-Refines false depth (ok (text id)) ps bs e =
        framed-Refines (block_pointer env.hash_type id false) ps _ (rec id true 1)
          (flattens id (not (ltb depth env.block_depth)) (suc depth)) bs e
    reference-Refines ignore_blocks depth (ok (num n)) ps bs e = e
    reference-Refines ignore_blocks depth (ok (array xs)) ps bs e = e
    reference-Refines ignore_blocks depth (ok other) ps bs e = e

    entry-Refines :
        (d : Directory) (ignore_blocks : Bool) (depth : ℕ) (j : Json)
        → Refines
            (read_entry env store rec d ignore_blocks depth j)
            (read_entry env store rec d true 1 j)
    entry-Refines d ignore_blocks depth (num n) = λ bs e. e
    entry-Refines d ignore_blocks depth (text t) = reference-Refines ignore_blocks depth _ _
    entry-Refines d ignore_blocks depth (array xs) = reference-Refines ignore_blocks depth _ _
    entry-Refines d ignore_blocks depth other = reference-Refines ignore_blocks depth _ _

    entries-Refines :
        (d : Directory) (ignore_blocks : Bool) (depth : ℕ) (es : List Json)
        → Refines
            (read_entries env store rec d ignore_blocks depth es)
            (read_entries env store rec d true 1 es)
    unfolding read_entries
    entries-Refines d ignore_blocks depth [] = λ bs e. e
    entries-Refines d ignore_blocks depth (j ∷ es) =
        Refines-then_from (read_entry env store rec d ignore_blocks depth j)
          (read_entry env store rec d true 1 j)
          (read_entries env store rec d ignore_blocks depth es)
          (read_entries env store rec d true 1 es) (entry-Refines d ignore_blocks depth j)
          (entries-Refines d ignore_blocks depth es)

    directory-Refines :
        (d : Directory) (ignore_blocks : Bool) (depth : ℕ) (o : Option (List Json))
        → Refines
            (read_directory env store rec d ignore_blocks depth o)
            (read_directory env store rec d true 1 o)
    directory-Refines d ignore_blocks depth none = λ bs e. e
    directory-Refines d ignore_blocks depth (some es) = entries-Refines d ignore_blocks depth es

    node-Refines :
        (id : Bytes) (ignore_blocks : Bool) (depth : ℕ) (o : Option Node)
        → Refines
            (read_node env store rec id ignore_blocks depth o)
            (read_node env store rec id true 1 o)
    node-Refines id ignore_blocks depth none = λ bs e. e
    node-Refines id ignore_blocks depth (some (file c)) = λ bs e. e
    node-Refines id ignore_blocks depth (some (dir d)) =
        directory-Refines d ignore_blocks depth d.metadata

  pub read_block-Refines :
      (fuel : ℕ) (id : Bytes) (ignore_blocks : Bool) (depth : ℕ)
      → Refines
          (read_block env store fuel id ignore_blocks depth)
          (read_block env store fuel id true 1)
  unfolding read_block
  read_block-Refines zero id ignore_blocks depth = λ bs e. e
  read_block-Refines (suc fuel) id ignore_blocks depth =
      node-Refines (read_block env store fuel) (read_block-Refines fuel) id ignore_blocks depth
        (find_node store id)

  -- If the stream of a block with its nested blocks framed, from whatever depth, is read to its end,
  -- then the flat reader of the same block is too, and the bytes are the same.
  pub collect-read_block_flat :
      (fuel : ℕ) (id : Bytes) (ignore_blocks : Bool) (depth : ℕ) (bs : Bytes)
      → collect (read_block env store fuel id ignore_blocks depth) ≡ ok bs
      → collect (read_block env store fuel id true 1) ≡ ok bs
  collect-read_block_flat fuel id ignore_blocks depth bs e =
      read_block-Refines fuel id ignore_blocks depth bs e
