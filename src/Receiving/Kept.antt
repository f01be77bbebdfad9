-- ===== src/Receiving/Kept.antt =====
-- What `save_to_dir` keeps (src/bee_rpc/client.py).
use mathlib.Core.Path.{subst}
use bee_rpc_over_grpc_py.Prelude.{
  ℕ, zero, suc, ◌≡◌, refl, sym, ap, Bool, true, false, Option, some, List, [], ◌∷◌, ◌++◌, length,
  inl, inr, if◌then◌else◌,
}
use bee_rpc_over_grpc_py.Outcome.{ok, recursion_error, Result-cases}
use bee_rpc_over_grpc_py.Varint.{Bytes}
use bee_rpc_over_grpc_py.Hex.{hex}
use bee_rpc_over_grpc_py.Wire.{Block, Buffer}
use bee_rpc_over_grpc_py.Environment.{Environment}
use bee_rpc_over_grpc_py.Store.{
  Json, num, Node, file, dir, Store, find_part, read_block, read_directory,
}
use bee_rpc_over_grpc_py.Store.Chunks.{collect}
use bee_rpc_over_grpc_py.Step.{pure, ◌>>=◌}
use bee_rpc_over_grpc_py.Step.Keeping.{Keeps}
use bee_rpc_over_grpc_py.Step.Triples.{Meets, Meets-ok, Meets-err, Meets-bind}
use bee_rpc_over_grpc_py.Parser.Lazy.{trace_of}
use bee_rpc_over_grpc_py.Saving.{Progress, Part, PartList, save_chunks_to_block}
use bee_rpc_over_grpc_py.Saving.Complete.{IsComplete, Built, nothing, collect-Built}
use bee_rpc_over_grpc_py.Saving.Parts.{
  Below, Below-new, Written, save_chunks_to_file-Meets, part-Written,
}
use bee_rpc_over_grpc_py.Saving.Content.{Built-single, dir_node_shape}
use bee_rpc_over_grpc_py.Saving.Blocks.{save_chunks_to_block-SavesBlocks}
use bee_rpc_over_grpc_py.Receiving.Files.{rest_after, feed_of, saved_node, save_parts, save_to_dir}

-- A file has these bytes; a directory is read to its end and expands to them.
abbrev pub Expands : Environment → Store → Node → Bytes → Type 0
Expands env s (file content) bs = content ≡ bs
Expands env s (dir d) bs =
    collect (read_directory env s (read_block env s (suc (length s))) d true 1 d.metadata) ≡ ok bs

module _ (env : Environment) (serialize : Block → Bytes) (wbp_fuel : ℕ)
    (no_collisions : (x y : Bytes)
      → hex (env.hash_factory x) ≡ hex (env.hash_factory y)
      → x ≡ y) where
  -- The parts and the entries read as some bytes, and the first entry is the part 1.
  abbrev IsWritten : Store → PartList × (List Json × List Buffer) → Type 0
  IsWritten s (parts, (entries, rest)) =
      (bs : Bytes) × (tail : List Json) × Built env s parts entries bs × (entries ≡ num 1 ∷ tail)

  -- The same where the part `i` is still to come.
  abbrev IsBegun : Store → ℕ → PartList → List Json → Type 0
  IsBegun s i parts entries =
      (bs : Bytes) × (tail : List Json) × Built env s parts entries bs
      × (entries ++ (num i ∷ []) ≡ num 1 ∷ tail)

  round-Meets :
      (rounds i : ℕ) (more : PartList) (part : Part) (rest : List Buffer) (s : Store) (whole : Bool)
      → IsComplete env s
      → Written env [] s (more, part.progress)
      → (IsBegun s (suc i) more part.progress.entries
          → Meets
              (IsComplete env)
              IsWritten
              s
              (save_parts env serialize wbp_fuel rounds (suc i) more part.progress.entries rest s))
      → Meets (IsComplete env) IsWritten s (
          (if whole
              then pure (ok (more, (part.progress.entries, rest)))
              else save_parts env serialize wbp_fuel rounds (suc i) more part.progress.entries rest)
            s)
  round-Meets rounds i more part rest s true complete (bs, tail, built, fed, first) later =
      Meets-ok (IsComplete env) IsWritten s _ complete (bs, tail, built, first)
  round-Meets rounds i more part rest s false complete (bs, tail, built, fed, first) later =
      later (bs, tail ++ (num (suc i) ∷ []), built, ap (λ es. es ++ (num (suc i) ∷ [])) first)

  save_parts-Meets :
      (rounds i : ℕ) (parts : PartList) (entries : List Json) (input : List Buffer) (s : Store)
      → IsComplete env s
      → Below parts i
      → IsBegun s i parts entries
      → Meets
          (IsComplete env)
          IsWritten
          s
          (save_parts env serialize wbp_fuel rounds i parts entries input s)
  unfolding save_parts
  save_parts-Meets zero i parts entries input s complete below begun =
      Meets-err (IsComplete env) IsWritten s recursion_error complete
  save_parts-Meets (suc rounds) i parts entries input s complete below (bs, tail, built, first) =
      let rec = save_chunks_to_block env serialize wbp_fuel (suc (length input)) in
      let saves =
        save_chunks_to_block-SavesBlocks env serialize wbp_fuel no_collisions
          (suc (length input)) in
      let p : Progress = record {
        input = trace_of (feed_of env serialize wbp_fuel input);
        exhausted = false;
        hashers = [];
        entries = entries;
      } in
      Meets-bind (IsComplete env) _ IsWritten s _ _
        (save_chunks_to_file-Meets env rec saves [] entries (num i) p s complete)
        (λ s' part grows complete' post.
          round-Meets rounds i (parts ++ ((i, part.content) ∷ [])) part
            (rest_after input (feed_of env serialize wbp_fuel input) part.progress) s' part.whole
            complete'
            (part-Written env rec saves [] s s' i [] parts p part grows below
              (bs, tail, built, refl, first) post)
            (save_parts-Meets rounds (suc i) (parts ++ ((i, part.content) ∷ []))
              part.progress.entries
              (rest_after input (feed_of env serialize wbp_fuel input) part.progress) s' complete'
              (Below-new parts i part.content below)))

  dir-Expands :
      (s : Store) (parts : PartList) (es : List Json) (wbp : Option Bytes) (bs : Bytes)
      → Built env s parts es bs
      → Expands env s (dir (record { metadata = some es; parts = parts; wbp = wbp })) bs
  dir-Expands s parts es wbp bs built = collect-Built env s _ (λ id payload e. e) built

  saved_node-Expands :
      (s : Store) (parts : PartList) (tail : List Json) (bs : Bytes) (node : Node)
      → Built env s parts (num 1 ∷ tail) bs
      → saved_node env serialize wbp_fuel parts (num 1 ∷ tail) s ≡ ok node
      → Expands env s node bs
  saved_node-Expands s parts [] bs node built h =
      let same : file bs ≡ node = cc (Built-single env built) in
      subst (λ n. Expands env s n bs) same refl
  saved_node-Expands s parts (e ∷ es) bs node built h =
      let (wbp, shape) = dir_node_shape env serialize wbp_fuel env.skip_wbp_generation _ _ node h in
      subst (λ n. Expands env s n bs) (sym shape)
        (dir-Expands s parts (num 1 ∷ e ∷ es) wbp bs built)

  -- What is kept can be read.
  abbrev IsKept : Store → Node × List Buffer → Type 0
  IsKept s (node, rest) = (bs : Bytes) × Expands env s node bs

  saved_node-Meets :
      (parts : PartList) (entries : List Json) (rest : List Buffer) (s : Store)
      → IsComplete env s
      → IsWritten s (parts, (entries, rest))
      → Meets (IsComplete env) IsKept s (
          (do
            node ← λ store. (store, saved_node env serialize wbp_fuel parts entries store)
            pure (ok (node, rest)))
            s)
  saved_node-Meets parts entries rest s complete (bs, tail, built, first) =
      elim (Result-cases (saved_node env serialize wbp_fuel parts (num 1 ∷ tail) s)) [
        | inl (node, made) ↦
            rw (first, made)
              (Meets-ok (IsComplete env) IsKept s (node, rest) complete
                (
                  bs,
                  saved_node-Expands s parts tail bs node
                      (subst (λ es. Built env s parts es bs) first built) made,
                ))
        | inr (e, failed) ↦ rw (first, failed) (Meets-err (IsComplete env) IsKept s e complete)
      ]

  save_to_dir-Meets :
      (input : List Buffer) (s : Store)
      → IsComplete env s
      → Meets (IsComplete env) IsKept s (save_to_dir env serialize wbp_fuel input s)
  unfolding save_to_dir
  save_to_dir-Meets input s complete =
      Meets-bind (IsComplete env) IsWritten IsKept s _ _
        (save_parts-Meets (suc (length input)) 1 [] [] input s complete
          (λ n h. unfold find_part in refl) ([], [], nothing, refl))
        (λ s' (parts, (entries, rest)) grows complete' written.
          saved_node-Meets parts entries rest s' complete' written)

  -- Where every block of the registry can be read and is what its id names, and the hash has no
  -- collisions: where `save_to_dir` returns, that is so for the registry behind it, whatever the peer
  -- sends, the blocks that were there are as they were, and what stands at the path that is returned can
  -- be read to its end: a file as it is, a directory with the blocks in it expanded.
  pub save_to_dir-Expands :
      (input rest : List Buffer) (s s' : Store) (node : Node)
      → IsComplete env s
      → save_to_dir env serialize wbp_fuel input s ≡ (s', ok (node, rest))
      → IsComplete env s' × Keeps s s' × ((bs : Bytes) × Expands env s' node bs)
  save_to_dir-Expands input rest s s' node complete h =
      let m = save_to_dir-Meets input s complete in
      let there = ap (λ q. q.0) h in
      (
        subst (λ t. IsComplete env t) there m.holds,
        subst (λ t. Keeps s t) there m.grows.keeps,
        subst (λ t. IsKept t (node, rest)) there (m.post (node, rest) (ap (λ q. q.1) h)),
      )
