-- ===== src/Skip/Content.antt =====
-- Skipping touches nothing outside the blocks.
use mathlib.Core.Path.{ap₂}
use bee_rpc_over_grpc_py.Prelude.{
  ℕ, suc, ◌≤◌, ◌≡◌, ◌⊎◌, refl, sym, ap, ◌∙◌, true, false, Option, none, some, List, [], ◌∷◌, ◌++◌,
  append_assoc, length, arith, Bool-cases, inl, inr,
}
use bee_rpc_over_grpc_py.Varint.{Bytes}
use bee_rpc_over_grpc_py.Wire.{Block, Buffer}
use bee_rpc_over_grpc_py.Pointer.{get_hash_from_block}
use bee_rpc_over_grpc_py.Control.{StreamControl}
use bee_rpc_over_grpc_py.Skip.{
  Key, Frame, Filter, start, outermost_skipped, or_outermost, emit_unless, on_chunk, on_marker,
  on_buffer, skip_loop, buffers, is_enabled, skip_requested_blocks,
}
use bee_rpc_over_grpc_py.Skip.Receiver.{
  receive, nest, after_buffer, keys, opened_keys, OpenTo, Fits, Good,
}
use bee_rpc_over_grpc_py.Skip.Nesting.{then_with-eq-some, on_buffer-step}

-- What is kept of one buffer, where `o` says which blocks are open behind it.
abbrev outside_step : Buffer → Option Block → List Key → List Buffer
outside_step b none [] = b ∷ []
outside_step b none (k ∷ ks) = []
outside_step b (some block) ks = []

abbrev on_open : Option (List Key) → (List Key → List Buffer) → List Buffer
on_open none f = []
on_open (some ks) f = f ks

-- The buffers of a stream that stand in no block.
pub outside : Bytes → List Key → List Buffer → List Buffer
outside hash_type ks [] = []
outside hash_type ks (b ∷ bs) =
    outside_step b b.block ks
    ++ on_open (after_buffer hash_type ks b.block) (λ ks'. outside hash_type ks' bs)

outside-append :
    (hash_type : Bytes) (ks ks' : List Key) (xs ys : List Buffer)
    → nest hash_type ks xs ≡ some ks'
    → outside hash_type ks (xs ++ ys) ≡ outside hash_type ks xs ++ outside hash_type ks' ys
unfolding outside nest
outside-append hash_type ks ks' [] ys e = ap (λ t. outside hash_type t ys) (unsome e)
  where
    unsome : some ks ≡ some ks' → ks ≡ ks'
    unsome p = cc
outside-append hash_type ks ks' (x ∷ xs) ys e =
    let (k, p, q) =
      then_with-eq-some (after_buffer hash_type ks x.block) (λ t. nest hash_type t xs) ks' e in
    rw p (
      ap (λ t. outside_step x x.block ks ++ t) (outside-append hash_type k ks' xs ys q)
      ∙ sym (
          append_assoc (outside_step x x.block ks) (outside hash_type k xs)
            (outside hash_type ks' ys)))

-- A block that is open at the filter is open at the receiver, or lies in one that is.
opened_keys-cons :
    (f : Frame) (fs : List Frame) (d : ℕ)
    → 1 ≤ d
    → OpenTo d (f ∷ fs)
    → (k : Key) × (ks : List Key) × (opened_keys (f ∷ fs) ≡ k ∷ ks)
opened_keys-cons f [] d h o = (f.block_id, [], rw (o.0 h))
opened_keys-cons f (g ∷ fs) d h o =
    let (k, ks, e) = opened_keys-cons g fs d h o.1 in
    elim (Bool-cases f.opened) [
      | inl p ↦ (f.block_id, opened_keys (g ∷ fs), rw p)
      | inr p ↦ (k, ks, rw p e)
    ]

module _ (hash_type : Bytes) (control : StreamControl) (b : Buffer) where
  chunk_inside :
      (at : Option ℕ) (k : Key) (ks : List Key)
      → b.block ≡ none
      → outside hash_type (k ∷ ks) (emit_unless at b) ≡ []
  unfolding outside
  chunk_inside none k ks e = simp e
  chunk_inside (some d) k ks e = refl

  outside-chunk :
      (at : Option ℕ) (fs : List Frame)
      → b.block ≡ none
      → Fits at fs
      → outside hash_type (opened_keys fs) (emit_unless (or_outermost control at fs) b)
        ≡ outside_step b none (keys fs)
  outside-chunk none [] e h = unfold outermost_skipped outside in simp e
  outside-chunk (some d) [] e h = absurd (omega arith)
  outside-chunk none (f ∷ fs) e h =
      let (k, ks, p) = opened_keys-cons f fs (suc (length fs)) (omega arith) h in
      rw p (chunk_inside (outermost_skipped control (f ∷ fs)) k ks e)
  outside-chunk (some d) (f ∷ fs) e h =
      let (k, ks, p) = opened_keys-cons f fs d h.0 h.2 in rw p (chunk_inside (some d) k ks e)

  marker_alone :
      (ks : List Key) (block : Block) → b.block ≡ some block → outside hash_type ks (b ∷ []) ≡ []
  unfolding outside
  marker_alone ks block e =
      rw e (nothing (receive ks (get_hash_from_block hash_type block false true)))
    where
      nothing : (o : Option (List Key)) → on_open o (λ ks'. []) ≡ []
      nothing none = refl
      nothing (some t) = refl

  on_marker-out :
      (at : Option ℕ) (fs : List Frame) (k : Key)
      → ((on_marker control at fs k b).1 ≡ b ∷ []) ⊎ ((on_marker control at fs k b).1 ≡ [])
  unfolding on_marker
  on_marker-out none [] k = inl refl
  on_marker-out (some d) [] k = inr refl
  on_marker-out none (f ∷ fs) k = ground arith
  on_marker-out (some d) (f ∷ fs) k = ground arith

  outside-on_buffer :
      (s : Filter) (o : Option Block)
      → b.block ≡ o
      → Good s
      → outside hash_type (opened_keys s.stack) (on_buffer hash_type control s b o).1
        ≡ outside_step b o (keys s.stack)
  outside-on_buffer s none e h = unfold on_chunk in outside-chunk s.skipping_at s.stack e h
  outside-on_buffer s (some block) e h =
      elim (on_marker-out s.skipping_at s.stack (get_hash_from_block hash_type block false true)) [
        | inl p ↦ rw p (marker_alone (opened_keys s.stack) block e)
        | inr p ↦ rw p (unfold outside in refl)
      ]

outside-skip_loop :
    (hash_type : Bytes) (s : Filter) (stream : List (Buffer × StreamControl)) (ks : List Key)
    → Good s
    → nest hash_type (keys s.stack) (buffers stream) ≡ some ks
    → outside hash_type (opened_keys s.stack) (skip_loop hash_type s stream)
      ≡ outside hash_type (keys s.stack) (buffers stream)
unfolding skip_loop nest
outside-skip_loop hash_type s [] ks h e = unfold outside in refl
outside-skip_loop hash_type s ((b, control) ∷ rest) ks h e =
    let step = on_buffer hash_type control s b b.block in
    let (k, p, q) =
      then_with-eq-some (after_buffer hash_type (keys s.stack) b.block)
        (λ t. nest hash_type t (buffers rest)) ks e in
    let (good, same, out) = on_buffer-step hash_type control s b b.block k refl p h in
    outside-append hash_type (opened_keys s.stack) (opened_keys step.0.stack) step.1
      (skip_loop hash_type step.0 rest) out
    ∙ ap₂ (λ x y. x ++ y) (outside-on_buffer hash_type control b s b.block refl h)
        (outside-skip_loop hash_type step.0 rest ks good (rw same q))
    ∙ (unfold outside in rw (p, same))

-- Whatever the peer asks for and whenever: the buffers that stand in no block go out unchanged, all
-- of them and in their order, provided the markers of the stream nest.
pub outside-skip_requested_blocks :
    (hash_type : Bytes) (control : Option StreamControl) (stream : List (Buffer × StreamControl))
    (ks : List Key)
    → nest hash_type [] (buffers stream) ≡ some ks
    → outside hash_type [] (skip_requested_blocks hash_type control stream)
      ≡ outside hash_type [] (buffers stream)
unfolding skip_requested_blocks
outside-skip_requested_blocks hash_type control stream ks e =
    elim (Bool-cases (is_enabled control)) [
      | inl on ↦ rw on (outside-skip_loop hash_type start stream ks tt e)
      | inr off ↦ rw off
    ]
