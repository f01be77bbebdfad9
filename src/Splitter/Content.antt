-- ===== src/Splitter/Content.antt =====
-- Splitting a block keeps the stream it expands to.
use mathlib.Core.Path.{subst}
use bee_rpc_over_grpc_py.Prelude.{
  ℕ, zero, suc, ◌+◌, ◌/◌, ◌%◌, ◌≡◌, refl, sym, ap, ◌∙◌, Bool, true, false, Option, none, some, List,
  [], ◌∷◌, ◌++◌, append-nil, ◌==◌, if◌then◌else◌, Bool-cases, inl, inr,
}
use bee_rpc_over_grpc_py.Outcome.{Error, Result, ok, err, split_error, ok_injective}
use bee_rpc_over_grpc_py.Trace.{Trace, stop}
use bee_rpc_over_grpc_py.Varint.{Bytes}
use bee_rpc_over_grpc_py.Environment.{Environment}
use bee_rpc_over_grpc_py.Store.{Store, Item}
use bee_rpc_over_grpc_py.Store.Chunks.{collect, join-empty}
use bee_rpc_over_grpc_py.ChunkReader.{Reader, new_reader, at_end, read, copy, varint}
use bee_rpc_over_grpc_py.ChunkReader.Stream.{
  pending, whole, Takes, Takes-none, Takes-append, at_end-Takes, at_end-finished, read-Takes,
  copy-Takes,
}
use bee_rpc_over_grpc_py.ChunkReader.Varints.{varint-Takes}
use bee_rpc_over_grpc_py.Step.{Step, pure, ◌>>=◌}
use bee_rpc_over_grpc_py.Splitter.{
  Writer, new_writer, closed, write, store_payload, Walk, copy_field, split_field, on_scalar,
  on_message, on_field, field_of, delimited, fixed, number_field, on_wire_type, round, done,
  check_end, walk,
}
use bee_rpc_over_grpc_py.Splitter.Untouched.{publish-Keeps, publish-Present}
use bee_rpc_over_grpc_py.Step.Keeping.{Keeps, continue-eq-ok, pure-eq-ok}
use bee_rpc_over_grpc_py.Splitter.Written.{
  Present, pure-eq-store, Expands, nothing, own, Walked-trans, Walked-write, Walked-none,
  Holds-write_block, stored-payload, Expands-append, Holds, Walked, Writes,
}

module _ (env : Environment) where
  module _ {Descriptor Field : Type 0} (fields_by_number : Descriptor → ℕ → Option Field)
      (message_type : Field → Option Descriptor) (should_split : Field → ℕ → Bool) where
    -- The steps of this walk.
    abbrev TheWalk : Type 0
    TheWalk = Walk env fields_by_number message_type should_split

    abbrev WalkWrites : TheWalk → Type 0
    WalkWrites rec =
        (d : Option Descriptor) (end : Option ℕ) (chain : List ℕ) (r : Reader) (w : Writer)
        → Writes env r w (rec d end chain r w)

    -- A step that begins with something that takes bytes.
    Writes-after :
        {A : Type 0} (r : Reader) (w : Writer) (first : Result A) (f : A → Step (Reader × Writer))
        → ((a : A) → first ≡ ok a → Writes env r w (f a))
        → Writes env r w (pure first >>= f)
    unfolding Writes
    Writes-after r w first f h s s' p e =
        let (s1, a, began, later) = continue-eq-ok (pure first s) f s' p e in
        subst (λ x. Walked env x s' r w p) (sym (pure-eq-store first s s1 a began))
          (h a (pure-eq-ok first s s1 a began) s1 s' p later)

    Writes-pure :
        (r : Reader) (w : Writer) (p : Reader × Writer)
        → ((s : Store) → Walked env s s r w p)
        → Writes env r w (pure (ok p))
    unfolding Writes
    Writes-pure r w p h s s' q e =
        subst (λ x. Walked env s x r w q) (pure-eq-store (ok p) s s' q e)
          (subst (λ x. Walked env s s r w x) (ok_injective (pure-eq-ok (ok p) s s' q e)) (h s))

    Writes-err : (r : Reader) (w : Writer) (x : Error) → Writes env r w (pure (err x))
    unfolding Writes
    Writes-err r w x s s' p e = cc

    Writes-bind :
        (r : Reader) (w : Writer) (m : Step (Reader × Writer))
        (f : Reader × Writer → Step (Reader × Writer))
        → Writes env r w m
        → ((r' : Reader) (w' : Writer) → Writes env r' w' (f (r', w')))
        → Writes env r w (m >>= f)
    unfolding Writes
    Writes-bind r w m f h k s s' p e =
        let (s1, (r1, w1), began, later) = continue-eq-ok (m s) f s' p e in
        Walked-trans env s s1 s' r r1 w w1 p (h s s1 (r1, w1) began) (k r1 w1 s1 s' p later)

    -- A byte was looked for before.
    Writes-seen :
        (r r1 : Reader) (w : Writer) (m : Step (Reader × Writer))
        → Takes r [] r1
        → Writes env r1 w m
        → Writes env r w m
    unfolding Writes Walked
    Writes-seen r r1 w m seen h s s' p e =
        let (out, taken, held) = h s s' p e in (out, Takes-append r r1 p.0 [] out seen taken, held)

    Writes-either :
        (b : Bool) (r : Reader) (w : Writer) (m n : Step (Reader × Writer))
        → Writes env r w m
        → Writes env r w n
        → Writes env r w (if b then m else n)
    Writes-either true r w m n h k = h
    Writes-either false r w m n h k = k

    number_field-Writes :
        (r : Reader) (w : Writer)
        → Writes env r w (number_field env fields_by_number message_type should_split r w)
    number_field-Writes r w = Writes-after r w (varint r) _ (λ (raw, n, r') e.
        Writes-pure r w (r', write raw w)
          (λ s. Walked-write env s r r' w raw (varint-Takes r raw n r' e).1))

    fixed-Writes :
        (n : ℕ) (r : Reader) (w : Writer)
        → Writes env r w (fixed env fields_by_number message_type should_split n r w)
    fixed-Writes n r w = Writes-after r w (read n r) _ (λ (out, r') e.
        Writes-pure r w (r', write out w)
          (λ s. Walked-write env s r r' w out (read-Takes n r out r' e).1))

    copy_field-Writes :
        (n : ℕ) (r : Reader) (w : Writer)
        → Writes env r w (copy_field env fields_by_number message_type should_split n r w)
    copy_field-Writes n r w = Writes-after r w (copy n r) _ (λ (out, r') e.
        Writes-pure r w (r', write out w)
          (λ s. Walked-write env s r r' w out (copy-Takes n r out r' e).1))

    split_field-Writes :
        (n : ℕ) (chain : List ℕ) (r : Reader) (w : Writer)
        → Writes env r w (split_field env fields_by_number message_type should_split n chain r w)
    unfolding Writes Walked
    split_field-Writes n chain r w s s' p e =
        let (s1, (id, r1), stored, later) = continue-eq-ok (store_payload env r n s) _ s' p e in
        let (payload, named, published, taken) = stored-payload env r n s s1 id r1 stored in
        let kept = subst (λ x. Keeps s x) (sym published) (publish-Keeps id payload s) in
        let there = subst (λ x. Present x id) (sym published) (publish-Present id payload s) in
        subst (λ x. Walked env s x r w p) (pure-eq-store _ s1 s' p later)
          (subst (λ x. Walked env s s1 r w x) (ok_injective (pure-eq-ok _ s1 s' p later))
            (
              payload,
              taken,
              λ bs h. Holds-write_block env s s1 w bs payload id chain named kept there h,
            ))

    on_scalar-Writes :
        (split : Bool) (n : ℕ) (chain : List ℕ) (r : Reader) (w : Writer)
        → Writes env r w
            (on_scalar env fields_by_number message_type should_split split n chain r w)
    on_scalar-Writes true n chain r w = split_field-Writes n chain r w
    on_scalar-Writes false n chain r w = copy_field-Writes n r w

    on_message-Writes :
        (rec : TheWalk) (o : Option Descriptor) (split : Bool) (n : ℕ) (chain : List ℕ) (r : Reader)
        (w : Writer)
        → WalkWrites rec
        → Writes env r w
            (on_message env fields_by_number message_type should_split rec o split n chain r w)
    on_message-Writes rec (some d) split n chain r w h =
        h (some d) (some (r.position + n)) chain r w
    on_message-Writes rec none split n chain r w h = on_scalar-Writes split n chain r w

    on_field-Writes :
        (rec : TheWalk) (o : Option Field) (n : ℕ) (chain : List ℕ) (r : Reader) (w : Writer)
        → WalkWrites rec
        → Writes env r w (on_field env fields_by_number message_type should_split rec o n chain r w)
    on_field-Writes rec none n chain r w h = copy_field-Writes n r w
    on_field-Writes rec (some f) n chain r w h =
        on_message-Writes rec (message_type f) (should_split f n) n chain r w h

    -- First bytes that are written as they are, and then the rest.
    Writes-then :
        (r r' : Reader) (w : Writer) (out : Bytes) (m : Step (Reader × Writer))
        → Takes r out r'
        → Writes env r' (write out w) m
        → Writes env r w m
    unfolding Writes
    Writes-then r r' w out m taken h s s' p e =
        Walked-trans env s s s' r r' w (write out w) p (Walked-write env s r r' w out taken)
          (h s s' p e)

    delimited-Writes :
        (rec : TheWalk) (d : Option Descriptor) (chain : List ℕ) (number : ℕ) (r : Reader)
        (w : Writer)
        → WalkWrites rec
        → Writes env r w
            (delimited env fields_by_number message_type should_split rec d chain number r w)
    delimited-Writes rec d chain number r w h = Writes-after r w (varint r) _ (λ (raw, n, r') e.
        Writes-then r r' w raw _ (varint-Takes r raw n r' e).1 (
          on_field-Writes rec (field_of env fields_by_number message_type should_split d number) n
            (chain ++ (r.position ∷ [])) r' (write raw w) h))

    on_wire_type-Writes :
        (rec : TheWalk) (d : Option Descriptor) (chain : List ℕ) (number wire_type : ℕ) (r : Reader)
        (w : Writer)
        → WalkWrites rec
        → Writes env r w (
            on_wire_type env fields_by_number message_type should_split rec d chain number wire_type
              r w)
    on_wire_type-Writes rec d chain number wire_type r w h = elim (Bool-cases (wire_type == 0)) [
      | inl a ↦ rw a (number_field-Writes r w)
      | inr a ↦ rw a (elim (Bool-cases (wire_type == 1)) [
        | inl b ↦ rw b (fixed-Writes 8 r w)
        | inr b ↦ rw b (elim (Bool-cases (wire_type == 5)) [
          | inl c ↦ rw c (fixed-Writes 4 r w)
          | inr c ↦ rw c (elim (Bool-cases (wire_type == 2)) [
            | inl d' ↦ rw d' (delimited-Writes rec d chain number r w h)
            | inr d' ↦ rw d' (Writes-err r w split_error)
          ])
        ])
      ])
    ]

    round-Writes :
        (rec : TheWalk) (d : Option Descriptor) (chain : List ℕ) (r : Reader) (w : Writer)
        → WalkWrites rec
        → Writes env r w (round env fields_by_number message_type should_split rec d chain r w)
    unfolding round
    round-Writes rec d chain r w h = Writes-after r w (varint r) _ (λ (raw, tag, r') e.
        Writes-then r r' w raw _ (varint-Takes r raw tag r' e).1
          (on_wire_type-Writes rec d chain (tag / 8) (tag % 8) r' (write raw w) h))

    done-Takes :
        (end : Option ℕ) (r r1 : Reader) (over : Bool)
        → done env fields_by_number message_type should_split end r ≡ ok (over, r1)
        → Takes r [] r1
    done-Takes none r r1 over e = at_end-Takes r r1 over e
    done-Takes (some end) r r1 over e = subst (λ q. Takes r [] q.1) (ok_injective e) (Takes-none r)

    check_end-Writes :
        (end : Option ℕ) (r : Reader) (w : Writer)
        → Writes env r w (pure (check_end env fields_by_number message_type should_split end r w))
    check_end-Writes none r w = Writes-pure r w (r, w) (λ s. Walked-none env s r w)
    check_end-Writes (some end) r w = elim (Bool-cases (r.position == end)) [
      | inl here ↦ rw here (Writes-pure r w (r, w) (λ s. Walked-none env s r w))
      | inr past ↦ rw past (Writes-err r w split_error)
    ]

    walk-Writes : (fuel : ℕ) → WalkWrites (walk env fields_by_number message_type should_split fuel)
    unfolding walk
    walk-Writes zero d end chain r w = Writes-err r w _
    walk-Writes (suc fuel) d end chain r w =
        Writes-after r w (done env fields_by_number message_type should_split end r) _
          (λ (over, r1) e. Writes-seen r r1 w _ (done-Takes end r r1 over e) (
            Writes-either over r1 w _ _ (check_end-Writes end r1 w) (
              Writes-bind r1 w _ _
                (round-Writes (walk env fields_by_number message_type should_split fuel) d chain r1
                  w (walk-Writes fuel))
                (λ r' w'. walk-Writes fuel d end chain r' w'))))

    -- The walk of a whole block ends where the reader has nothing left.
    Finished : Reader × Writer → Type 0
    Finished p = (p.0.chunks ≡ stop) × (p.0.left ≡ [])

    Finishes : Step (Reader × Writer) → Type 0
    Finishes m = (s s' : Store) (p : Reader × Writer) → m s ≡ (s', ok p) → Finished p

    over-Finishes :
        (over : Bool) (r r1 : Reader) (w : Writer) (next : Step (Reader × Writer))
        → at_end r ≡ ok (over, r1)
        → Finishes next
        → Finishes (if over then pure (ok (r1, w)) else next)
    unfolding Finished Finishes
    over-Finishes true r r1 w next looked h s s' p e =
        subst Finished (ok_injective (pure-eq-ok (ok (r1, w)) s s' p e))
          (at_end-finished r r1 looked)
    over-Finishes false r r1 w next looked h s s' p e = h s s' p e

    walk-Finishes :
        (fuel : ℕ) (d : Option Descriptor) (chain : List ℕ) (r : Reader) (w : Writer)
        → Finishes (walk env fields_by_number message_type should_split fuel d none chain r w)
    unfolding walk Finishes
    walk-Finishes zero d chain r w s s' p e = cc
    walk-Finishes (suc fuel) d chain r w s s' p e =
        let (s1, (over, r1), looked, later) = continue-eq-ok (pure (at_end r) s) _ s' p e in
        over-Finishes over r r1 w _ (pure-eq-ok (at_end r) s s1 (over, r1) looked)
          (λ s2 s3 q h.
            let (s4, (r2, w2), began, rest) =
              continue-eq-ok
                (round env fields_by_number message_type should_split
                  (walk env fields_by_number message_type should_split fuel) d chain r1 w s2)
                _ s3 q h in
            walk-Finishes fuel d chain r2 w2 s4 s3 q rest)
          s1 s' p later

    -- A whole block: all of it was read and hashed, and the directory that is written expands to it.
    pub walk-Expands :
        (fuel : ℕ) (d : Option Descriptor) (t : Trace Item) (s s' : Store) (r : Reader) (w : Writer)
        → walk env fields_by_number message_type should_split fuel d none []
            (new_reader t)
            new_writer
            s
          ≡ (s', ok (r, w))
        → (collect t ≡ ok r.fed) × Expands env (Present s') (closed w) r.fed
    unfolding Finished Finishes Writes Walked Holds pending whole
    walk-Expands fuel d t s s' r w e =
        let (ended, empty) = walk-Finishes fuel d [] (new_reader t) new_writer s s' (r, w) e in
        let (out, taken, held) =
          walk-Writes fuel d none [] (new_reader t) new_writer s s' (r, w) e in
        let (front, expands, same) = held [] ([], nothing, refl) in
        let fed =
          sym (join-empty (collect t))
          ∙ taken.hashes
          ∙ rw ended (unfold collect in ap ok (append-nil r.fed)) in
        let taken_bytes =
          sym (join-empty (collect t))
          ∙ taken.streams
          ∙ rw (ended, empty) (unfold collect in ap ok (append-nil out)) in
        let all_written : front ++ (w.open_part ++ []) ≡ r.fed =
          ap (λ last. front ++ last) (append-nil w.open_part)
          ∙ sym same
          ∙ ok_injective (sym taken_bytes ∙ fed) in
        (
          fed,
          subst (λ bs. Expands env (Present s') (closed w) bs) all_written
              (Expands-append env expands (own w.index w.open_part nothing)),
        )
