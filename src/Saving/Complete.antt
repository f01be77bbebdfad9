-- ===== src/Saving/Complete.antt =====
-- Registries of which every block can be read, and directories that are being written.
use mathlib.Core.Path.{subst}
use bee_rpc_over_grpc_py.Prelude.{
  ℕ, suc, ◌≡◌, refl, sym, ◌∙◌, true, Option, none, some, List, [], ◌∷◌, ◌++◌, append_assoc, length,
  bytes_eq, bytes_eq_sound, bytes_eq_refl, arith, Bool-cases, inl, inr,
}
use bee_rpc_over_grpc_py.Outcome.{Result, ok}
use bee_rpc_over_grpc_py.Varint.{Bytes}
use bee_rpc_over_grpc_py.Hex.{hex}
use bee_rpc_over_grpc_py.Environment.{Environment}
use bee_rpc_over_grpc_py.Store.{
  Json, num, text, array, nil, cons, Directory, Node, file, dir, Store, find_node, find_part,
  read_entries, read_block, first_item, verify_single_file_block,
}
use bee_rpc_over_grpc_py.Store.Chunks.{collect, join, collect-then_from, collect-read_file}
use bee_rpc_over_grpc_py.Step.Growth.{Grows, read_block-Grows}
use bee_rpc_over_grpc_py.Saving.{PartList}

module _ (env : Environment) where
  -- Reading the block gives these bytes.
  abbrev pub Reads : Store → Bytes → Bytes → Type 0
  Reads s id bs = collect (read_block env s (suc (length s)) id true 1) ≡ ok bs

  -- Every block of the registry can be read, and what is read hashes to its id.
  abbrev pub IsComplete : Store → Type 0
  IsComplete s =
      (id : Bytes) (node : Node)
      → find_node s id ≡ some node
      → (bs : Bytes) × Reads s id bs × (hex (env.hash_factory bs) ≡ id)

  pub Reads-Grows : (s s' : Store) (id bs : Bytes) → Grows s s' → Reads s id bs → Reads s' id bs
  Reads-Grows s s' id bs grows e =
      read_block-Grows env s s' (suc (length s)) (suc (length s')) id grows
        (omega (arith, grows.longer)) bs e

  -- The entries of a directory with these parts, and what they expand to.
  pub data Built (s : Store) (parts : PartList) : List Json → Bytes → Type 0 where
    nothing : Built s parts [] []
    own :
        {es : List Json} {bs : Bytes} (n : ℕ) (c : Bytes)
        → find_part parts n ≡ some c
        → Built s parts es bs
        → Built s parts (num n ∷ es) (c ++ bs)
    sub :
        {es : List Json} {bs : Bytes} (id payload : Bytes) (x : Json)
        → Reads s id payload
        → Built s parts es bs
        → Built s parts (array (cons (text id) (cons x nil)) ∷ es) (payload ++ bs)

  pub Built-append :
      {s : Store} {parts : PartList} {es es' : List Json} {xs ys : Bytes}
      → Built s parts es xs
      → Built s parts es' ys
      → Built s parts (es ++ es') (xs ++ ys)
  Built-append nothing k = k
  Built-append {s} {parts} {es'} {ys} (own {es} {bs} n c found h) k =
      subst (λ t. Built s parts (num n ∷ (es ++ es')) t) (sym (append_assoc c bs ys))
        (own n c found (Built-append h k))
  Built-append {s} {parts} {es'} {ys} (sub {es} {bs} id payload x read h) k =
      subst (λ t. Built s parts (array (cons (text id) (cons x nil)) ∷ (es ++ es')) t)
        (sym (append_assoc payload bs ys)) (sub id payload x read (Built-append h k))

  -- Later: the registry has grown, and parts were added.
  pub Built-later :
      {s s' : Store} {parts parts' : PartList} {es : List Json} {bs : Bytes}
      → Grows s s'
      → ((n : ℕ) (c : Bytes) → find_part parts n ≡ some c → find_part parts' n ≡ some c)
      → Built s parts es bs
      → Built s' parts' es bs
  Built-later grows more nothing = nothing
  Built-later grows more (own n c found h) = own n c (more n c found) (Built-later grows more h)
  Built-later {s} {s'} grows more (sub id payload x read h) =
      sub id payload x (Reads-Grows s s' id payload grows read) (Built-later grows more h)

  join-ok : {a b : Result Bytes} {x y : Bytes} → a ≡ ok x → b ≡ ok y → join a b ≡ ok (x ++ y)
  join-ok h k = rw (h, k) refl

  -- The directory reads as what was put together.
  pub collect-Built :
      {s : Store} (s' : Store) (d : Directory) {es : List Json} {bs : Bytes}
      → ((id payload : Bytes)
          → Reads s id payload
          → collect (read_block env s' (suc (length s)) id true 1) ≡ ok payload)
      → Built s d.parts es bs
      → collect (read_entries env s' (read_block env s' (suc (length s))) d true 1 es) ≡ ok bs
  unfolding read_entries
  collect-Built s' d reads nothing = unfold collect in refl
  collect-Built {s} s' d reads (own {es} {bs} n c found h) =
      collect-then_from _ _ ∙ join-ok (rw found (collect-read_file c)) (collect-Built s' d reads h)
  collect-Built {s} s' d reads (sub {es} {bs} id payload x read h) =
      collect-then_from _ _
      ∙ join-ok (unfold first_item in reads id payload read) (collect-Built s' d reads h)

  -- A new block in front of the registry.
  pub Grows-new :
      (s : Store) (id : Bytes) (node : Node) → find_node s id ≡ none → Grows s ((id, node) ∷ s)
  unfolding find_node
  Grows-new s id node fresh = record {
    keeps = record {
      kept = λ other n h. elim (Bool-cases (bytes_eq id other)) [
        | inl same ↦ cc (h, fresh, bytes_eq_sound id other same)
        | inr different ↦ rw different h
      ];
    };
    longer = omega arith;
  }

  pub IsComplete-new :
      (s : Store) (id bs : Bytes) (node : Node)
      → find_node s id ≡ none
      → IsComplete s
      → Reads ((id, node) ∷ s) id bs
      → hex (env.hash_factory bs) ≡ id
      → IsComplete ((id, node) ∷ s)
  unfolding find_node
  IsComplete-new s id bs node fresh complete read named other n h =
      elim (Bool-cases (bytes_eq id other)) [
        | inl same ↦
            let eq = bytes_eq_sound id other same in
            (bs, subst (λ x. Reads ((id, node) ∷ s) x bs) eq read, named ∙ eq)
        | inr different ↦
            let (old, reads, hashes) = complete other n (rw different at h) in
            (
              old,
              Reads-Grows s ((id, node) ∷ s) other old (Grows-new s id node fresh) reads,
              hashes,
            )
      ]

  pub Reads-file :
      (s : Store) (id content : Bytes)
      → hex (env.hash_factory content) ≡ id
      → Reads ((id, file content) ∷ s) id content
  unfolding read_block find_node verify_single_file_block
  Reads-file s id content named =
      rw (bytes_eq_refl id, named, bytes_eq_refl id) (collect-read_file content)

  pub Reads-dir :
      (s : Store) (id bs : Bytes) (es : List Json) (parts : PartList) (wbp : Option Bytes)
      → find_node s id ≡ none
      → Built s parts es bs
      → Reads ((id, dir (record { metadata = some es; parts = parts; wbp = wbp })) ∷ s) id bs
  unfolding read_block find_node
  Reads-dir s id bs es parts wbp fresh built =
      let d : Directory = record { metadata = some es; parts = parts; wbp = wbp } in
      rw (bytes_eq_refl id) (
        collect-Built ((id, dir d) ∷ s) d
          (λ x payload e.
            read_block-Grows env s ((id, dir d) ∷ s) (suc (length s)) (suc (length s)) x
              (Grows-new s id (dir d) fresh) (omega arith) payload e)
          built)
