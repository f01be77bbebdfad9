-- ===== src/Splitter/Written.antt =====
-- What a step of the walk writes, against what it takes.
use mathlib.Core.Path.{subst}
use bee_rpc_over_grpc_py.Prelude.{
  ℕ, ◌≡◌, sym, ap, ◌∙◌, some, List, [], ◌∷◌, ◌++◌, append-nil, append_assoc,
}
use bee_rpc_over_grpc_py.Outcome.{Result, ok}
use bee_rpc_over_grpc_py.Varint.{Bytes}
use bee_rpc_over_grpc_py.Hex.{hex}
use bee_rpc_over_grpc_py.Environment.{Environment}
use bee_rpc_over_grpc_py.Store.{Node, Store, find_node, block_exists}
use bee_rpc_over_grpc_py.ChunkReader.{Reader, copy}
use bee_rpc_over_grpc_py.ChunkReader.Stream.{Takes, Takes-none, Takes-append, copy-Takes}
use bee_rpc_over_grpc_py.Step.{Step, pure}
use bee_rpc_over_grpc_py.Splitter.{
  Segment, part, block, Writer, write, write_block, publish, store_payload,
}
use bee_rpc_over_grpc_py.Step.Keeping.{Keeps, continue-eq-ok, pure-eq-ok}

-- The registry has something under the id.
abbrev pub Present : Store → Bytes → Type 0
Present s id = (node : Node) × (find_node s id ≡ some node)

-- What a pure step leaves.
pub pure-eq-store :
    {A : Type 0} (r : Result A) (s s' : Store) (a : A) → pure r s ≡ (s', ok a) → s ≡ s'
pure-eq-store r s s' a h = ap (λ q. q.0) h

module _ (env : Environment) where
  -- The directory expands to these bytes: its parts, and for each block bytes that its id names;
  -- of each block, `held` says how the registry has it.
  pub data Expands (held : Bytes → Type 0) : List Segment → Bytes → Type 0 where
    nothing : Expands held [] []
    own :
        {rest : List Segment} {bs : Bytes} (i : ℕ) (content : Bytes)
        → Expands held rest bs
        → Expands held (part i content ∷ rest) (content ++ bs)
    sub :
        {rest : List Segment} {bs : Bytes} (id : Bytes) (positions : List ℕ) (payload : Bytes)
        → id ≡ hex (env.hash_factory payload)
        → held id
        → Expands held rest bs
        → Expands held (block id positions ∷ rest) (payload ++ bs)

  pub Expands-append :
      {held : Bytes → Type 0} {xs ys : List Segment} {front bs : Bytes}
      → Expands held xs front
      → Expands held ys bs
      → Expands held (xs ++ ys) (front ++ bs)
  Expands-append {ys} {bs} nothing k = k
  Expands-append {held} {ys} {bs} (own {rest} {bs = front} i content h) k =
      subst (λ t. Expands held (part i content ∷ (rest ++ ys)) t)
        (sym (append_assoc content front bs)) (own i content (Expands-append h k))
  Expands-append {held} {ys} {bs} (sub {rest} {bs = front} id positions payload e p h) k =
      subst (λ t. Expands held (block id positions ∷ (rest ++ ys)) t)
        (sym (append_assoc payload front bs)) (sub id positions payload e p (Expands-append h k))

  pub Expands-map :
      {held held' : Bytes → Type 0} {xs : List Segment} {bs : Bytes}
      → ((id : Bytes) → held id → held' id)
      → Expands held xs bs
      → Expands held' xs bs
  Expands-map f nothing = nothing
  Expands-map f (own i content h) = own i content (Expands-map f h)
  Expands-map f (sub id positions payload e p h) =
      sub id positions payload e (f id p) (Expands-map f h)

  -- What was written so far, with its blocks in the registry.
  unfoldable pub Holds : Store → Writer → Bytes → Type 0
  Holds s w bs =
      (front : Bytes) × Expands (Present s) w.segments front × (bs ≡ front ++ w.open_part)

  Holds-write :
      (s : Store) (w : Writer) (bs out : Bytes) → Holds s w bs → Holds s (write out w) (bs ++ out)
  unfolding Holds
  Holds-write s w bs out (front, e, same) =
      (front, e, ap (λ t. t ++ out) same ∙ append_assoc front w.open_part out)

  pub Holds-write_block :
      (s s' : Store) (w : Writer) (bs payload id : Bytes) (positions : List ℕ)
      → id ≡ hex (env.hash_factory payload)
      → Keeps s s'
      → Present s' id
      → Holds s w bs
      → Holds s' (write_block id positions w) (bs ++ payload)
  unfolding Holds write_block
  Holds-write_block s s' w bs payload id positions named kept there (front, e, same) = (
    front ++ (w.open_part ++ (payload ++ [])),
    Expands-append (Expands-map (λ other p. (p.0, kept.kept other p.0 p.1)) e)
        (own w.index w.open_part (sub id positions payload named there nothing)),
    simp (same, append-nil, append_assoc),
  )

  -- From one reader and writer to the next: what was taken was written.
  unfoldable pub Walked : Store → Store → Reader → Writer → Reader × Writer → Type 0
  Walked s s' r w p =
      (out : Bytes) × Takes r out p.0 × ((bs : Bytes) → Holds s w bs → Holds s' p.1 (bs ++ out))

  pub Walked-trans :
      (s s' s'' : Store) (r r' : Reader) (w w' : Writer) (p : Reader × Writer)
      → Walked s s' r w (r', w')
      → Walked s' s'' r' w' p
      → Walked s s'' r w p
  unfolding Walked
  Walked-trans s s' s'' r r' w w' p (out, taken, held) (out', taken', held') = (
    out ++ out',
    Takes-append r r' p.0 out out' taken taken',
    λ bs h. subst (λ t. Holds s'' p.1 t) (append_assoc bs out out') (held' (bs ++ out) (held bs h)),
  )

  pub Walked-write :
      (s : Store) (r r' : Reader) (w : Writer) (out : Bytes)
      → Takes r out r'
      → Walked s s r w (r', write out w)
  unfolding Walked
  Walked-write s r r' w out taken = (out, taken, λ bs h. Holds-write s w bs out h)

  pub Walked-none : (s : Store) (r : Reader) (w : Writer) → Walked s s r w (r, w)
  unfolding Walked
  Walked-none s r w = ([], Takes-none r, λ bs h. subst (λ t. Holds s w t) (sym (append-nil bs)) h)

  -- A step that, where it succeeds, writes what it takes.
  unfoldable pub Writes : Reader → Writer → Step (Reader × Writer) → Type 0
  Writes r w m = (s s' : Store) (p : Reader × Writer) → m s ≡ (s', ok p) → Walked s s' r w p

  pub stored-payload :
      (r : Reader) (n : ℕ) (s s' : Store) (id : Bytes) (r' : Reader)
      → store_payload env r n s ≡ (s', ok (id, r'))
      → (payload : Bytes) × (id ≡ hex (env.hash_factory payload))
        × (s' ≡ publish id payload (block_exists s id) s)
        × Takes r payload r'
  unfolding store_payload
  stored-payload r n s s' id r' e =
      let (s1, (payload, r1), began, later) = continue-eq-ok (pure (copy n r) s) _ s' (id, r') e in
      let taken = (copy-Takes n r payload r1 (pure-eq-ok (copy n r) s s1 (payload, r1) began)).1 in
      let same = pure-eq-store (copy n r) s s1 (payload, r1) began in
      (payload, cc, cc, subst (λ x. Takes r payload x) (cc) taken)
