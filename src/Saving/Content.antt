-- ===== src/Saving/Content.antt =====
-- The end of `save_block_content`: what is stored reads as what was received.
use mathlib.Core.Path.{subst}
use bee_rpc_over_grpc_py.Prelude.{
  ℕ, suc, ◌≡◌, refl, sym, ap, ◌∙◌, Bool, true, false, Option, none, some, List, [], ◌∷◌, append-nil,
  bytes_eq, bytes_eq_sound, Bool-cases, Option-cases, inl, inr, if◌then◌else◌,
}
use bee_rpc_over_grpc_py.Outcome.{Result, ok, err, Result-cases}
use bee_rpc_over_grpc_py.Trace.{Trace, size}
use bee_rpc_over_grpc_py.Varint.{Bytes}
use bee_rpc_over_grpc_py.Hex.{hex}
use bee_rpc_over_grpc_py.Wire.{Block, Buffer, chunk_of}
use bee_rpc_over_grpc_py.Environment.{Environment}
use bee_rpc_over_grpc_py.Store.{
  Json, num, Node, shape, file, dir, Directory, Store, find_part, find_node, block_exists,
}
use bee_rpc_over_grpc_py.Step.Triples.{Meets, Meets-ok, Meets-err, Meets-bind}
use bee_rpc_over_grpc_py.Saving.{
  feed, Progress, SaveBlock, PartList, with_wbp, dir_node, ready, publish, finish_content,
  save_block_content, feed_held,
}
use bee_rpc_over_grpc_py.Saving.Complete.{
  Reads, IsComplete, Built, own, nothing, Grows-new, IsComplete-new, Reads-file, Reads-dir,
}
use bee_rpc_over_grpc_py.Saving.Parts.{feed-empty, SavesBlocks, Written, content_loop-Meets}

module _ (env : Environment) where
  -- A directory with one part.
  pub Built-single :
      {s : Store} {parts : PartList} {bs : Bytes}
      → Built env s parts (num 1 ∷ []) bs
      → find_part parts 1 ≡ some bs
  Built-single (own n c found nothing) = found ∙ ap some (sym (append-nil c))

  module _ (serialize : Block → Bytes) (wbp_fuel : ℕ) where
    pub dir_node_shape :
        (skip : Bool) (d : Directory) (r : Result Bytes) (node : Node)
        → (if skip then ok (dir d) else with_wbp env serialize wbp_fuel d r) ≡ ok node
        → (wbp : Option Bytes) × (node
            ≡ dir (record { metadata = d.metadata; parts = d.parts; wbp = wbp }))
    dir_node_shape true d r node h = (d.wbp, cc)
    dir_node_shape false d (ok bytes) node h = (some bytes, cc)
    dir_node_shape false d (err e) node h = cc

    dir_node-Reads :
        (block : Block) (s : Store) (id bs : Bytes) (es : List Json) (parts : PartList)
        (node : Node)
        → find_node s id ≡ none
        → Built env s parts es bs
        → dir_node env serialize wbp_fuel block
            (record { metadata = some es; parts = parts; wbp = none })
            s
          ≡ ok node
        → Reads env ((id, node) ∷ s) id bs
    dir_node-Reads block s id bs es parts node fresh built h =
        let (wbp, shape) = dir_node_shape env.skip_wbp_generation _ _ node h in
        subst (λ n. Reads env ((id, n) ∷ s) id bs) (sym shape)
          (Reads-dir env s id bs es parts wbp fresh built)

    -- What is ready to be stored reads as what the hash object was fed.
    ready-Reads :
        (block : Block) (s : Store) (id bs : Bytes) (parts : PartList) (rest : List Json)
        (node : Node)
        → find_node s id ≡ none
        → hex (env.hash_factory bs) ≡ id
        → Built env s parts (num 1 ∷ rest) bs
        → ready env serialize wbp_fuel block parts (num 1 ∷ rest) s ≡ ok node
        → Reads env ((id, node) ∷ s) id bs
    ready-Reads block s id bs parts [] node fresh named built h =
        subst (λ n. Reads env ((id, n) ∷ s) id bs) (cc (Built-single built))
          (Reads-file env s id bs named)
    ready-Reads block s id bs parts (e ∷ es) node fresh named built h =
        dir_node-Reads block s id bs (num 1 ∷ e ∷ es) parts node fresh built h

    -- A block that is there is not replaced.
    publish_present :
        (id : Bytes) (old node : Node) (s : Store)
        → publish env serialize wbp_fuel id (shape (some old)) node s ≡ (s, ok tt)
    publish_present id (file c) node s = refl
    publish_present id (dir d) node s = refl

    module _
        (no_collisions : (x y : Bytes)
          → hex (env.hash_factory x) ≡ hex (env.hash_factory y)
          → x ≡ y) where
      -- A block that is held reads as whatever hashes to its id.
      held-Reads :
          (s : Store) (id bs : Bytes) (node : Node)
          → IsComplete env s
          → find_node s id ≡ some node
          → hex (env.hash_factory bs) ≡ id
          → Reads env s id bs
      held-Reads s id bs node complete there named =
          let (held, reads, hashes) = complete id node there in
          subst (λ x. Reads env s id x) (no_collisions held bs (hashes ∙ sym named)) reads

      -- What `save_block_content` gives: the blocks around were fed what the new block reads as.
      abbrev pub ContentSaved : Bytes → List Bytes → Store → List Bytes → Type 0
      ContentSaved id hashers s' hashers' =
          (payload : Bytes) × (hashers' ≡ feed payload hashers) × Reads env s' id payload

      finish_content-Meets :
          (block : Block) (id : Bytes) (hashers : List Bytes) (parts : PartList) (p : Progress)
          (s : Store)
          → IsComplete env s
          → Written env ([] ∷ hashers) s (parts, p)
          → Meets
              (IsComplete env)
              (ContentSaved id hashers)
              s
              (finish_content env serialize wbp_fuel block id parts p s)
      unfolding block_exists
      finish_content-Meets block id hashers parts p s complete (bs, rest, built, fed, first) =
          elim (Bool-cases (bytes_eq (hex (env.hash_factory bs)) id)) [
            | inr other ↦
                rw (fed, other) (Meets-err (IsComplete env) (ContentSaved id hashers) s _ complete)
            | inl same ↦
                let named = bytes_eq_sound (hex (env.hash_factory bs)) id same in
                elim (Result-cases (ready env serialize wbp_fuel block parts (num 1 ∷ rest) s)) [
                  | inr (x, failed) ↦
                      rw (fed, same, first, failed)
                        (Meets-err (IsComplete env) (ContentSaved id hashers) s x complete)
                  | inl (node, made) ↦ elim (Option-cases (find_node s id)) [
                    | inr (old, there) ↦
                        rw (fed, same, first, made, there, publish_present id old node s)
                          (Meets-ok (IsComplete env) (ContentSaved id hashers) s (feed bs hashers)
                            complete (bs, refl, held-Reads s id bs old complete there named))
                    | inl fresh ↦
                        let reads =
                          ready-Reads block s id bs parts rest node fresh named
                            (subst (λ es. Built env s parts es bs) first built) made in
                        rw (fed, same, first, made, fresh)
                          (record {
                            grows = Grows-new env s id node fresh;
                            holds = IsComplete-new env s id bs node fresh complete reads named;
                            post = λ hs e. (bs, cc, reads);
                          })
                  ]
                ]
          ]

      pub save_block_content-Meets :
          (rec : SaveBlock)
          → SavesBlocks env rec
          → (b : Buffer) (block : Block) (id : Bytes) (input : Trace Buffer) (hashers : List Bytes)
            (s : Store)
          → IsComplete env s
          → Meets
              (IsComplete env)
              (ContentSaved id hashers)
              s
              (save_block_content env serialize wbp_fuel rec b block id input hashers s)
      unfolding save_block_content
      save_block_content-Meets rec saves b block id input hashers s complete =
          Meets-bind (IsComplete env) (Written env ([] ∷ hashers)) (ContentSaved id hashers) s _
            (λ q. finish_content env serialize wbp_fuel block id q.0 q.1)
            (content_loop-Meets env rec saves ([] ∷ hashers) (suc (size input)) 1 (chunk_of b.chunk)
              [] (record { input = input; exhausted = false; hashers = [] ∷ hashers; entries = [] })
              s complete (λ n more. unfold find_part in refl)
              ([], [], nothing, sym (feed-empty ([] ∷ hashers)), refl))
            (λ s' q grows complete' written.
              finish_content-Meets block id hashers q.0 q.1 s' complete' written)

      pub feed_held-Meets :
          (id : Bytes) (hashers : List Bytes) (node : Node) (s : Store)
          → IsComplete env s
          → find_node s id ≡ some node
          → Meets
              (IsComplete env)
              (ContentSaved id hashers)
              s
              (feed_held env serialize wbp_fuel id hashers s)
      feed_held-Meets id [] node s complete there =
          let (held, reads, hashes) = complete id node there in
          Meets-ok (IsComplete env) (ContentSaved id []) s [] complete (held, refl, reads)
      feed_held-Meets id (h ∷ hs) node s complete there =
          let (held, reads, hashes) = complete id node there in
          rw reads (
            Meets-ok (IsComplete env) (ContentSaved id (h ∷ hs)) s (feed held (h ∷ hs)) complete
              (held, refl, reads))
