-- ===== src/Skip/Tree.antt =====
-- With a fixed set of requests the filter is a pruning of the tree of blocks.
use bee_rpc_over_grpc_py.Prelude.{
  ℕ, suc, ◌≤◌, ◌≡◌, refl, sym, ap, ◌∙◌, Bool, true, false, Option, none, some, List, [], ◌∷◌, ◌++◌,
  append-nil, append_assoc, length, bytes_eq_refl, arith, Bool-cases, inl, inr,
}
use bee_rpc_over_grpc_py.Varint.{Bytes}
use bee_rpc_over_grpc_py.Wire.{Block, Buffer}
use bee_rpc_over_grpc_py.Control.{StreamControl, should_skip}
use bee_rpc_over_grpc_py.Skip.Items.{
  Items, done, piece, nested, flatten, key_of, Differs, prune, IsStream, at_once,
}
use bee_rpc_over_grpc_py.Skip.{
  Key, key_eq, Frame, Filter, start, outermost_skipped, emit_if, resume, open_block, on_marker,
  on_chunk, skip_loop, skip_requested_blocks,
}

at_once-append :
    (control : StreamControl) (xs ys : List Buffer)
    → at_once control (xs ++ ys) ≡ at_once control xs ++ at_once control ys
at_once-append control [] ys = refl
at_once-append control (x ∷ xs) ys = rw (at_once-append control xs ys)

abbrev top : List Frame → Option Key
top [] = none
top (f ∷ fs) = some f.block_id

abbrev state : List Frame → Option ℕ → Filter
state fs at = record { stack = fs; skipping_at = at }

abbrev frame : Key → Bool → Frame
frame k o = record { block_id = k; opened = o }

key_eq_refl : (k : Key) → key_eq k k ≡ true
key_eq_refl none = refl
key_eq_refl (some a) = bytes_eq_refl a

module _ (hash_type : Bytes) (control : StreamControl) (rest : List (Buffer × StreamControl))
    (b : Buffer) where
  loop_pass :
      (fs : List Frame)
      → b.block ≡ none
      → outermost_skipped control fs ≡ none
      → skip_loop hash_type (state fs none) ((b, control) ∷ rest)
        ≡ b ∷ skip_loop hash_type (state fs none) rest
  unfolding skip_loop on_chunk
  loop_pass fs e o = simp (e, o)

  loop_drop :
      (fs : List Frame) (d : ℕ)
      → b.block ≡ none
      → skip_loop hash_type (state fs (some d)) ((b, control) ∷ rest)
        ≡ skip_loop hash_type (state fs (some d)) rest
  unfolding skip_loop on_chunk
  loop_drop fs d e = simp e

  on_marker-open :
      (fs : List Frame) (at : Option ℕ) (k : Key)
      → Differs (top fs) k
      → on_marker control at fs k b ≡ open_block control at fs k b
  unfolding on_marker
  on_marker-open [] at k d = refl
  on_marker-open (f ∷ fs) at k d = simp d

  -- What the filter makes of a stream whose first buffer is a marker, from the step that it takes.
  abbrev after : Filter × List Buffer → List Buffer
  after r = r.1 ++ skip_loop hash_type r.0 rest

  module _ (marks : (block : Block) × (b.block ≡ some block)) where
    abbrev k : Key
    k = key_of hash_type b.block

    loop_marker :
        (s : Filter)
        → skip_loop hash_type s ((b, control) ∷ rest)
          ≡ after (on_marker control s.skipping_at s.stack k b)
    unfolding skip_loop
    loop_marker s = simp marks.1

    loop_open :
        (fs : List Frame)
        → Differs (top fs) k
        → skip_loop hash_type (state fs none) ((b, control) ∷ rest)
          ≡ b
            ∷ skip_loop hash_type
                (state (frame k true ∷ fs) (outermost_skipped control (frame k true ∷ fs)))
                rest
    loop_open fs d =
        loop_marker (state fs none)
        ∙ ap after (on_marker-open fs none k d)
        ∙ (unfold open_block in refl)

    loop_open_in :
        (fs : List Frame) (at : ℕ)
        → Differs (top fs) k
        → skip_loop hash_type (state fs (some at)) ((b, control) ∷ rest)
          ≡ skip_loop hash_type (state (frame k false ∷ fs) (some at)) rest
    loop_open_in fs at d =
        loop_marker (state fs (some at))
        ∙ ap after (on_marker-open fs (some at) k d)
        ∙ (unfold open_block in refl)

    loop_close :
        (fs : List Frame) (at : Option ℕ) (o : Bool)
        → skip_loop hash_type (state (frame k o ∷ fs) at) ((b, control) ∷ rest)
          ≡ emit_if o b ++ skip_loop hash_type (state fs (resume at (suc (length fs)))) rest
    loop_close fs at o =
        loop_marker (state (frame k o ∷ fs) at) ∙ (unfold on_marker in rw (key_eq_refl k))

module _ (hash_type : Bytes) (control : StreamControl) where
  -- Inside a skipped block nothing goes out, however deep the stream nests there.
  swallowed :
      (items : Items) (rest : List (Buffer × StreamControl)) (fs : List Frame) (d : ℕ)
      → IsStream hash_type (top fs) items
      → d ≤ length fs
      → skip_loop hash_type (state fs (some d)) (at_once control (flatten items) ++ rest)
        ≡ skip_loop hash_type (state fs (some d)) rest
  unfolding flatten
  swallowed done rest fs d h le = refl
  swallowed (piece b items) rest fs d h le =
      loop_drop hash_type control (at_once control (flatten items) ++ rest) b fs d h.0
      ∙ swallowed items rest fs d h.1 le
  swallowed (nested m body items) rest fs d h le =
      let tail = at_once control (flatten items) ++ rest in
      let key = key_of hash_type m.block in
      rw (at_once-append control (flatten body) (m ∷ flatten items)) (
        rw
          (append_assoc (at_once control (flatten body))
            ((m, control) ∷ at_once control (flatten items)) rest)
          (loop_open_in hash_type control _ m h.0 fs d h.1
            ∙ swallowed body ((m, control) ∷ tail) (frame key false ∷ fs) d h.2 (omega arith)
            ∙ loop_close hash_type control tail m h.0 fs (some d) false
            ∙ ap (λ t. skip_loop hash_type (state fs t) tail) (resume-outer d (length fs) le)
            ∙ swallowed items rest fs d h.3 le))
    where
      resume-outer : (d n : ℕ) → d ≤ n → resume (some d) (suc n) ≡ some d
      resume-outer d n le = ground arith

  outermost-wanted :
      (fs : List Frame) (k : Key)
      → outermost_skipped control fs ≡ none
      → should_skip control k ≡ true
      → outermost_skipped control (frame k true ∷ fs) ≡ some (suc (length fs))
  unfolding outermost_skipped
  outermost-wanted fs k o w = rw (o, w)

  outermost-unwanted :
      (fs : List Frame) (k : Key)
      → outermost_skipped control fs ≡ none
      → should_skip control k ≡ false
      → outermost_skipped control (frame k true ∷ fs) ≡ none
  unfolding outermost_skipped
  outermost-unwanted fs k o w = rw (o, w)

  resume-here : (n : ℕ) → resume (some n) n ≡ none
  resume-here n = ground arith

  -- A wanted block in front of `tail`: its two markers go out, and then the rest.
  skip_loop-wanted :
      (m : Buffer) (body : Items) (tail : List (Buffer × StreamControl)) (fs : List Frame)
      → ((block : Block) × (m.block ≡ some block))
      → Differs (top fs) (key_of hash_type m.block)
      → IsStream hash_type (some (key_of hash_type m.block)) body
      → outermost_skipped control fs ≡ none
      → should_skip control (key_of hash_type m.block) ≡ true
      → skip_loop hash_type
          (state fs none)
          ((m, control) ∷ (at_once control (flatten body) ++ ((m, control) ∷ tail)))
        ≡ m ∷ m ∷ skip_loop hash_type (state fs none) tail
  skip_loop-wanted m body tail fs marks d h o w =
      let key = key_of hash_type m.block in
      loop_open hash_type control (at_once control (flatten body) ++ ((m, control) ∷ tail)) m marks
        fs d
      ∙ ap (λ t. m ∷ t)
          (rw (outermost-wanted fs key o w) (
            swallowed body ((m, control) ∷ tail) (frame key true ∷ fs) (suc (length fs)) h
              (omega arith)
            ∙ loop_close hash_type control tail m marks fs (some (suc (length fs))) true
            ∙ ap (λ t. m ∷ skip_loop hash_type (state fs t) tail) (resume-here (suc (length fs)))))

  pruned :
      (items : Items) (rest : List (Buffer × StreamControl)) (fs : List Frame)
      → IsStream hash_type (top fs) items
      → outermost_skipped control fs ≡ none
      → skip_loop hash_type (state fs none) (at_once control (flatten items) ++ rest)
        ≡ flatten (prune hash_type control items) ++ skip_loop hash_type (state fs none) rest
  unfolding flatten prune
  pruned done rest fs h o = refl
  pruned (piece b items) rest fs h o =
      loop_pass hash_type control (at_once control (flatten items) ++ rest) b fs h.0 o
      ∙ ap (λ t. b ∷ t) (pruned items rest fs h.1 o)
  pruned (nested m body items) rest fs h o =
      let tail = at_once control (flatten items) ++ rest in
      let key = key_of hash_type m.block in
      rw (at_once-append control (flatten body) (m ∷ flatten items)) (
        rw
          (append_assoc (at_once control (flatten body))
            ((m, control) ∷ at_once control (flatten items)) rest)
          (elim (Bool-cases (should_skip control key)) [
            | inl w ↦ rw w (
                skip_loop-wanted m body tail fs h.0 h.1 h.2 o w
                ∙ ap (λ t. m ∷ m ∷ t) (pruned items rest fs h.3 o))
            | inr w ↦ rw w (
                loop_open hash_type control
                  (at_once control (flatten body) ++ ((m, control) ∷ tail)) m h.0 fs h.1
                ∙ ap (λ t. m ∷ t)
                    (rw (outermost-unwanted fs key o w) (
                      pruned body ((m, control) ∷ tail) (frame key true ∷ fs) h.2
                        (outermost-unwanted fs key o w)
                      ∙ ap (λ t. flatten (prune hash_type control body) ++ t)
                          (loop_close hash_type control tail m h.0 fs none true
                            ∙ ap (λ t. m ∷ t) (pruned items rest fs h.3 o))
                      ∙ sym (
                          append_assoc (flatten (prune hash_type control body))
                            (m ∷ flatten (prune hash_type control items))
                            (skip_loop hash_type (state fs none) rest)))))
          ]))

-- On an enabled control, where the peer's requests are all in before the stream begins and no block
-- stands directly in a block of its own id, what goes out is the stream of the pruned tree: each
-- wanted block that is not inside a wanted one keeps its two markers and loses its body, and all
-- else goes out as it is.
pub skip_requested_blocks-prune :
    (hash_type : Bytes) (control : StreamControl) (items : Items)
    → control.enabled ≡ true
    → IsStream hash_type none items
    → skip_requested_blocks hash_type (some control) (at_once control (flatten items))
      ≡ flatten (prune hash_type control items)
unfolding skip_requested_blocks
skip_requested_blocks-prune hash_type control items on h = simp on (
    ap (λ t. skip_loop hash_type start t) (sym (append-nil (at_once control (flatten items))))
    ∙ pruned hash_type control items [] [] h (unfold outermost_skipped in refl)
    ∙ (unfold skip_loop in append-nil (flatten (prune hash_type control items))))
