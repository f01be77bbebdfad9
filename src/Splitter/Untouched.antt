-- ===== src/Splitter/Untouched.antt =====
-- What a split leaves alone: the registry only gains blocks until the block itself is replaced.
use bee_rpc_over_grpc_py.Prelude.{
  ℕ, zero, suc, ◌+◌, ◌%◌, ◌≡◌, refl, sym, ap, ◌∙◌, Bool, true, false, Option, none, some, List, ◌⊎◌,
  bytes_eq, bytes_eq_refl, bytes_eq_sound, ◌==◌, if◌then◌else◌, Bool-cases, inl, inr,
}
use bee_rpc_over_grpc_py.Outcome.{Result, ok, err}
use bee_rpc_over_grpc_py.Varint.{Bytes}
use bee_rpc_over_grpc_py.Hex.{hex}
use bee_rpc_over_grpc_py.Environment.{Environment}
use bee_rpc_over_grpc_py.Store.{Node, file, dir, Store, find_node, block_exists}
use bee_rpc_over_grpc_py.ChunkReader.{Reader, read, copy, varint}
use bee_rpc_over_grpc_py.Step.{Step, pure, continue, ◌>>=◌}
use bee_rpc_over_grpc_py.Splitter.{
  Writer, publish, store_payload, Walk, copy_field, on_scalar, on_message, on_field, round, done,
  walk,
}
use bee_rpc_over_grpc_py.Step.Keeping.{Keeps, Keeps-refl, Keeps-trans}

pub publish-Keeps :
    (id payload : Bytes) (s : Store) → Keeps s (publish id payload (block_exists s id) s)
unfolding block_exists
publish-Keeps id payload s = go (find_node s id) refl
  where
    go : (o : Option Node) → find_node s id ≡ o → Keeps s (publish id payload (block_exists s id) s)
    go (some (file c)) e = rw e (Keeps-refl s)
    go (some (dir d)) e = rw e (Keeps-refl s)
    go none e = rw e (record {
      kept = λ other node h. elim (Bool-cases (bytes_eq id other)) [
        | inl same ↦ cc (sym e ∙ ap (λ t. find_node s t) (bytes_eq_sound id other same) ∙ h)
        | inr apart ↦ rw apart h
      ];
    })

pub publish-Present :
    (id payload : Bytes) (s : Store)
    → (node : Node) × (find_node (publish id payload (block_exists s id) s) id ≡ some node)
unfolding block_exists
publish-Present id payload s = go (find_node s id) refl
  where
    go :
        (o : Option Node)
        → find_node s id ≡ o
        → (node : Node) × (find_node (publish id payload (block_exists s id) s) id ≡ some node)
    go (some (file c)) e = rw e (file c, e)
    go (some (dir d)) e = rw e (dir d, e)
    go none e = rw e (file payload, (unfold find_node in rw (bytes_eq_refl id) refl))

module _ (env : Environment) where
  -- All that was in the registry is there as it was, and what is new is a file under the name of its hash.
  pub record Adds (s s' : Store) : Type 0 where
    pub keeps : Keeps s s'
    pub fresh :
        (id : Bytes) (node : Node)
        → find_node s' id ≡ some node
        → (find_node s id ≡ some node)
          ⊎ ((content : Bytes) × (node ≡ file content) × (id ≡ hex (env.hash_factory content)))

  pub Adds-refl : (s : Store) → Adds s s
  Adds-refl s = record { keeps = Keeps-refl s; fresh = λ id node h. inl h }

  Adds-trans : (s s' s'' : Store) → Adds s s' → Adds s' s'' → Adds s s''
  Adds-trans s s' s'' h k = record {
    keeps = Keeps-trans s s' s'' h.keeps k.keeps;
    fresh = λ id node e. elim (k.fresh id node e) [
      | inl before ↦ h.fresh id node before
      | inr new ↦ inr new
    ];
  }

  -- A step that only adds, whether or not it raises.
  abbrev pub Grows : {A : Type 0} → Step A → Type 0
  Grows m = (s : Store) → Adds s (m s).0

  pub Grows-bind :
      {A B : Type 0} (m : Step A) (f : A → Step B)
      → Grows m
      → ((a : A) → Grows (f a))
      → Grows (m >>= f)
  Grows-bind {A} m f h k s = go (m s) (h s)
    where
      go : (first : Store × Result A) → Adds s first.0 → Adds s (continue first f).0
      go (s1, ok a) p = Adds-trans s s1 _ p (k a s1)
      go (s1, err e) p = p

  publish-fresh :
      (id payload : Bytes) (s : Store) (here : Bool × Bool) (other : Bytes) (node : Node)
      → id ≡ hex (env.hash_factory payload)
      → find_node (publish id payload here s) other ≡ some node
      → (find_node s other ≡ some node)
        ⊎ ((content : Bytes) × (node ≡ file content) × (other ≡ hex (env.hash_factory content)))
  unfolding find_node
  publish-fresh id payload s (true, d) other node named h = inl h
  publish-fresh id payload s (false, d) other node named h = elim (Bool-cases (bytes_eq id other)) [
    | inl same ↦ inr (payload, cc (rw same at h), sym (bytes_eq_sound id other same) ∙ named)
    | inr apart ↦ inl (rw apart at h)
  ]

  store_payload-Grows : (r : Reader) (n : ℕ) → Grows (store_payload env r n)
  unfolding store_payload
  store_payload-Grows r n =
      Grows-bind (pure (copy n r)) _ (λ s. Adds-refl s)
        (λ p s. record {
          keeps = publish-Keeps (hex (env.hash_factory p.0)) p.0 s;
          fresh = λ id node h.
              publish-fresh (hex (env.hash_factory p.0)) p.0 s
                (block_exists s (hex (env.hash_factory p.0))) id node refl h;
        })

  module _ {Descriptor Field : Type 0} (fields_by_number : Descriptor → ℕ → Option Field)
      (message_type : Field → Option Descriptor) (should_split : Field → ℕ → Bool) where
    abbrev pub WalkGrows : Walk env fields_by_number message_type should_split → Type 0
    WalkGrows rec =
        (d : Option Descriptor) (end : Option ℕ) (chain : List ℕ) (r : Reader) (w : Writer)
        → Grows (rec d end chain r w)

    Grows-after :
        {A B : Type 0} (first : Result A) (f : A → Step B)
        → ((a : A) → Grows (f a))
        → Grows (pure first >>= f)
    Grows-after first f h = Grows-bind (pure first) f (λ s. Adds-refl s) h

    Grows-either :
        {A : Type 0} (b : Bool) (m n : Step A) → Grows m → Grows n → Grows (if b then m else n)
    Grows-either true m n h k = h
    Grows-either false m n h k = k

    copy_field-Grows :
        (n : ℕ) (r : Reader) (w : Writer)
        → Grows (copy_field env fields_by_number message_type should_split n r w)
    copy_field-Grows n r w = Grows-after (copy n r) _ (λ p t. Adds-refl t)

    on_scalar-Grows :
        (split : Bool) (n : ℕ) (chain : List ℕ) (r : Reader) (w : Writer)
        → Grows (on_scalar env fields_by_number message_type should_split split n chain r w)
    on_scalar-Grows true n chain r w =
        Grows-bind (store_payload env r n) _ (store_payload-Grows r n) (λ p t. Adds-refl t)
    on_scalar-Grows false n chain r w = copy_field-Grows n r w

    on_message-Grows :
        (rec : Walk env fields_by_number message_type should_split) (o : Option Descriptor)
        (split : Bool) (n : ℕ) (chain : List ℕ) (r : Reader) (w : Writer)
        → WalkGrows rec
        → Grows (on_message env fields_by_number message_type should_split rec o split n chain r w)
    on_message-Grows rec (some d) split n chain r w h = h (some d) (some (r.position + n)) chain r w
    on_message-Grows rec none split n chain r w h = on_scalar-Grows split n chain r w

    on_field-Grows :
        (rec : Walk env fields_by_number message_type should_split) (o : Option Field) (n : ℕ)
        (chain : List ℕ) (r : Reader) (w : Writer)
        → WalkGrows rec
        → Grows (on_field env fields_by_number message_type should_split rec o n chain r w)
    on_field-Grows rec none n chain r w h = copy_field-Grows n r w
    on_field-Grows rec (some f) n chain r w h =
        on_message-Grows rec (message_type f) (should_split f n) n chain r w h

    round-Grows :
        (rec : Walk env fields_by_number message_type should_split) (d : Option Descriptor)
        (chain : List ℕ) (r : Reader) (w : Writer)
        → WalkGrows rec
        → Grows (round env fields_by_number message_type should_split rec d chain r w)
    unfolding round
    round-Grows rec d chain r w h = Grows-after (varint r) _ (λ (raw, tag, r1).
        Grows-either (tag % 8 == 0) _ _ (Grows-after (varint r1) _ (λ p t. Adds-refl t)) (
          Grows-either (tag % 8 == 1) _ _ (Grows-after (read 8 r1) _ (λ p t. Adds-refl t)) (
            Grows-either (tag % 8 == 5) _ _ (Grows-after (read 4 r1) _ (λ p t. Adds-refl t)) (
              Grows-either (tag % 8 == 2) _ _
                (Grows-after (varint r1) _ (λ q. on_field-Grows rec _ q.1 _ q.2 _ h))
                (λ t. Adds-refl t)))))

    pub walk-Grows :
        (fuel : ℕ) → WalkGrows (walk env fields_by_number message_type should_split fuel)
    unfolding walk
    walk-Grows zero d end chain r w = λ t. Adds-refl t
    walk-Grows (suc fuel) d end chain r w =
        Grows-after (done env fields_by_number message_type should_split end r) _ (λ (over, r1).
          Grows-either over _ _ (λ t. Adds-refl t)
            (Grows-bind
              (round env fields_by_number message_type should_split
                (walk env fields_by_number message_type should_split fuel) d chain r1 w)
              _
              (round-Grows (walk env fields_by_number message_type should_split fuel) d chain r1 w
                (walk-Grows fuel))
              (λ p. walk-Grows fuel d end chain p.0 p.1)))
