-- ===== src/Saving/Blocks.antt =====
-- Saving keeps the registry complete.
use mathlib.Core.Path.{subst}
use bee_rpc_over_grpc_py.Prelude.{
  ℕ, zero, suc, ◌≡◌, refl, sym, ap, ◌∙◌, Bool, true, Option, none, some, [], ◌∷◌, Option-cases, inl,
  inr,
}
use bee_rpc_over_grpc_py.Outcome.{Result, err, ok, plain, recursion_error, ok_injective}
use bee_rpc_over_grpc_py.Trace.{Trace}
use bee_rpc_over_grpc_py.Varint.{Bytes}
use bee_rpc_over_grpc_py.Hex.{hex}
use bee_rpc_over_grpc_py.Wire.{Block, Buffer}
use bee_rpc_over_grpc_py.Environment.{Environment}
use bee_rpc_over_grpc_py.Pointer.{block_id_from_pointer}
use bee_rpc_over_grpc_py.Store.{Node, shape, file, dir, Store, find_node, block_exists, read_block}
use bee_rpc_over_grpc_py.Store.Chunks.{collect}
use bee_rpc_over_grpc_py.Step.Keeping.{Keeps}
use bee_rpc_over_grpc_py.Step.Growth.{Grows}
use bee_rpc_over_grpc_py.Step.Triples.{Meets, Meets-ok, Meets-err, Meets-weaken, Meets-bind}
use bee_rpc_over_grpc_py.Saving.{
  feed, Progress, SaveBlock, save_or_skip, after_drain, save_named, save_chunks_to_block,
  note_block,
}
use bee_rpc_over_grpc_py.Saving.Complete.{Reads, IsComplete}
use bee_rpc_over_grpc_py.Saving.Content.{ContentSaved, save_block_content-Meets, feed_held-Meets}
use bee_rpc_over_grpc_py.Saving.Parts.{BlockSaved, SavesBlocks}

module _ (env : Environment) (serialize : Block → Bytes) (wbp_fuel : ℕ)
    (no_collisions : (x y : Bytes)
      → hex (env.hash_factory x) ≡ hex (env.hash_factory y)
      → x ≡ y) where
  abbrev Named : Bytes → Block → Progress → Store → Progress → Type 0
  Named id block p s' p' =
      (payload : Bytes) × (p'.entries ≡ note_block p.entries id block)
      × (p'.hashers ≡ feed payload p.hashers)
      × Reads env s' id payload

  save_or_skip-Meets :
      (rec : SaveBlock)
      → SavesBlocks env rec
      → (b : Buffer) (block : Block) (id : Bytes) (p : Progress) (s : Store) → IsComplete env s
      → Meets (IsComplete env) (Named id block p) s (
          save_or_skip env serialize wbp_fuel rec b block id
            (record p { entries = note_block p.entries id block })
            (block_exists s id)
            s)
  unfolding block_exists
  save_or_skip-Meets rec saves b block id p s complete = elim (Option-cases (find_node s id)) [
    | inl missing ↦ rw missing (
        Meets-bind (IsComplete env) (ContentSaved env serialize wbp_fuel no_collisions id p.hashers)
          (Named id block p) s _ _
          (save_block_content-Meets env serialize wbp_fuel no_collisions rec saves b block id _
            p.hashers s complete)
          (λ s' hs grows complete' (payload, fed, reads).
            Meets-ok (IsComplete env) (Named id block p) s' _ complete'
              (payload, refl, fed, reads)))
    | inr (node, there) ↦ held node there
  ]
    where
      drained :
          (node : Node)
          → find_node s id ≡ some node
          → (r : Result (Trace Buffer × Bool))
          → Meets (IsComplete env) (Named id block p) s (
              after_drain env serialize wbp_fuel id
                (record p { entries = note_block p.entries id block })
                r
                s)
      drained node there (err e) = Meets-err (IsComplete env) (Named id block p) s e complete
      drained node there (ok (rest, over)) =
          Meets-bind (IsComplete env)
            (ContentSaved env serialize wbp_fuel no_collisions id p.hashers) (Named id block p) s _
            _
            (feed_held-Meets env serialize wbp_fuel no_collisions id p.hashers node s complete
              there)
            (λ s' hs grows complete' (payload, fed, reads).
              Meets-ok (IsComplete env) (Named id block p) s' _ complete'
                (payload, refl, fed, reads))

      held :
          (node : Node)
          → find_node s id ≡ some node
          → Meets (IsComplete env) (Named id block p) s (
              save_or_skip env serialize wbp_fuel rec b block id
                (record p { entries = note_block p.entries id block })
                (shape (find_node s id))
                s)
      held (file c) there = rw there (drained (file c) there _)
      held (dir d) there = rw there (drained (dir d) there _)

  Named-BlockSaved :
      (id : Bytes) (block : Block) (p : Progress) (s s' : Store) (p' : Progress)
      → Grows s s'
      → Named id block p s' p'
      → BlockSaved env p s' p'
  Named-BlockSaved id block p s s' p' grows (payload, noted, fed, reads) =
      (id, block, payload, noted, fed, reads)

  -- What `save_chunks_to_block` gives, by the id that the marker names.
  abbrev NamedBy : Option Bytes → Block → Progress → Store → Progress → Type 0
  NamedBy o block p s' p' = (id : Bytes) × (o ≡ some id) × Named id block p s' p'

  save_named-Meets :
      (rec : SaveBlock)
      → SavesBlocks env rec
      → (b : Buffer) (block : Block) (p : Progress) (o : Option Bytes) (s : Store)
      → IsComplete env s
      → Meets
          (IsComplete env)
          (NamedBy o block p)
          s
          (save_named env serialize wbp_fuel rec b block p o s)
  save_named-Meets rec saves b block p none s complete =
      Meets-err (IsComplete env) (NamedBy none block p) s plain complete
  save_named-Meets rec saves b block p (some []) s complete =
      Meets-err (IsComplete env) (NamedBy (some []) block p) s plain complete
  save_named-Meets rec saves b block p (some (c ∷ cs)) s complete =
      Meets-weaken (IsComplete env) (Named (c ∷ cs) block p) (NamedBy (some (c ∷ cs)) block p) s _
        (λ s' p' grows named. (c ∷ cs, refl, named))
        (save_or_skip-Meets rec saves b block (c ∷ cs) p s complete)

  abbrev NamedByMarker : Block → Progress → Store → Progress → Type 0
  NamedByMarker block p s' p' =
      NamedBy (block_id_from_pointer env.hash_type block none true) block p s' p'

  save_chunks_to_block-Meets :
      (fuel : ℕ) (b : Buffer) (block : Block) (p : Progress) (s : Store)
      → IsComplete env s
      → Meets
          (IsComplete env)
          (NamedByMarker block p)
          s
          (save_chunks_to_block env serialize wbp_fuel fuel b block p s)
  unfolding save_chunks_to_block
  save_chunks_to_block-Meets zero b block p s complete =
      Meets-err (IsComplete env) (NamedByMarker block p) s recursion_error complete
  save_chunks_to_block-Meets (suc fuel) b block p s complete =
      save_named-Meets (save_chunks_to_block env serialize wbp_fuel fuel)
        (λ b' block' p' t complete'.
          Meets-weaken (IsComplete env) (NamedByMarker block' p') (BlockSaved env p') t _
            (λ t' q grows (id, named, saved). Named-BlockSaved id block' p' t t' q grows saved)
            (save_chunks_to_block-Meets fuel b' block' p' t complete'))
        b block p (block_id_from_pointer env.hash_type block none true) s complete

  pub save_chunks_to_block-SavesBlocks :
      (fuel : ℕ) → SavesBlocks env (save_chunks_to_block env serialize wbp_fuel fuel)
  save_chunks_to_block-SavesBlocks fuel b block p s complete =
      Meets-weaken (IsComplete env) (NamedByMarker block p) (BlockSaved env p) s _
        (λ s' q grows (id, named, saved). Named-BlockSaved id block p s s' q grows saved)
        (save_chunks_to_block-Meets fuel b block p s complete)

  -- What can be read is there.
  Reads-there :
      (s : Store) (id bs : Bytes) → Reads env s id bs → (node : Node) × (find_node s id ≡ some node)
  unfolding read_block
  Reads-there s id bs reads = elim (Option-cases (find_node s id)) [
    | inl missing ↦ unfold collect in cc (rw missing at reads)
    | inr there ↦ there
  ]

  -- Where every block of the registry can be read and is what its id names, and the hash has no
  -- collisions, that is so behind `save_chunks_to_block` too, whatever the peer sends and whether or
  -- not the call raises; and the blocks that were there are as they were.
  pub save_chunks_to_block-IsComplete :
      (fuel : ℕ) (b : Buffer) (block : Block) (p : Progress) (s : Store)
      → IsComplete env s
      → IsComplete env (save_chunks_to_block env serialize wbp_fuel fuel b block p s).0
        × Keeps s (save_chunks_to_block env serialize wbp_fuel fuel b block p s).0
  save_chunks_to_block-IsComplete fuel b block p s complete =
      let m = save_chunks_to_block-Meets fuel b block p s complete in (m.holds, m.grows.keeps)

  -- Under the same conditions, where the call returns, the marker names a block that the registry
  -- holds; it reads as bytes that hash to the id, and these are what the hash objects of the blocks
  -- around it were fed, whether the block was stored or was held before.
  pub save_chunks_to_block-Reads :
      (fuel : ℕ) (b : Buffer) (block : Block) (p p' : Progress) (s s' : Store)
      → IsComplete env s
      → save_chunks_to_block env serialize wbp_fuel fuel b block p s ≡ (s', ok p')
      → (id : Bytes) × (payload : Bytes) × (block_id_from_pointer env.hash_type block none true
          ≡ some id)
        × Reads env s' id payload
        × (hex (env.hash_factory payload) ≡ id)
        × (p'.hashers ≡ feed payload p.hashers)
        × (p'.entries ≡ note_block p.entries id block)
  save_chunks_to_block-Reads fuel b block p p' s s' complete h =
      let m = save_chunks_to_block-Meets fuel b block p s complete in
      let (id, named, (payload, noted, fed, reads)) =
        subst (λ t. NamedByMarker block p t p') (ap (λ q. q.0) h) (m.post p' (ap (λ q. q.1) h)) in
      let complete' : IsComplete env s' = subst (λ t. IsComplete env t) (ap (λ q. q.0) h) m.holds in
      let (node, there) = Reads-there s' id payload reads in
      let (held, reads', hashes) = complete' id node there in
      let same : held ≡ payload = ok_injective (sym reads' ∙ reads) in
      (
        id,
        payload,
        named,
        reads,
        subst (λ x. hex (env.hash_factory x) ≡ id) same hashes,
        fed,
        noted,
      )
