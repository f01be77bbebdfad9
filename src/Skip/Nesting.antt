-- ===== src/Skip/Nesting.antt =====
-- The markers that the filter lets out nest, if those that it is given do.
use mathlib.Core.Path.{subst}
use bee_rpc_over_grpc_py.Prelude.{
  ℕ, ◌≡◌, refl, sym, ap, ◌∙◌, Bool, true, false, Option, none, some, List, [], ◌∷◌, ◌++◌,
  if◌then◌else◌, arith, inl, inr, Bool-cases,
}
use bee_rpc_over_grpc_py.Varint.{Bytes}
use bee_rpc_over_grpc_py.Wire.{Block, Buffer}
use bee_rpc_over_grpc_py.Pointer.{get_hash_from_block}
use bee_rpc_over_grpc_py.Control.{StreamControl}
use bee_rpc_over_grpc_py.Skip.{
  Key, key_eq, Frame, Filter, start, emit_if, emit_unless, open_block, on_marker, or_outermost,
  on_chunk, on_buffer, skip_loop, buffers, is_enabled, skip_requested_blocks,
}
use bee_rpc_over_grpc_py.Skip.Receiver.{
  receive, after_buffer, then_with, nest, keys, opened_keys, Fits, opened_keys-keys, Good,
  on_marker-Good, on_chunk-Good,
}

nest-append :
    (hash_type : Bytes) (ks : List Key) (xs ys : List Buffer)
    → nest hash_type ks (xs ++ ys) ≡ then_with (nest hash_type ks xs) (λ ks'. nest hash_type ks' ys)
unfolding nest
nest-append hash_type ks [] ys = refl
nest-append hash_type ks (x ∷ xs) ys =
    go (after_buffer hash_type ks x.block) (λ ks'. nest-append hash_type ks' xs ys)
  where
    go :
        (o : Option (List Key))
        → ((ks' : List Key)
            → nest hash_type ks' (xs ++ ys)
              ≡ then_with (nest hash_type ks' xs) (λ t. nest hash_type t ys))
        → then_with o (λ ks'. nest hash_type ks' (xs ++ ys))
          ≡ then_with (then_with o (λ ks'. nest hash_type ks' xs)) (λ t. nest hash_type t ys)
    go none ih = refl
    go (some ks') ih = ih ks'

-- A buffer that is a marker with the key `k`.
abbrev Marks : Bytes → Buffer → Key → Type 0
Marks hash_type b k = (ks : List Key) → after_buffer hash_type ks b.block ≡ receive ks k

module _ (hash_type : Bytes) (b : Buffer) (k : Key) (marks : Marks hash_type b k) where
  nest-close :
      (o : Bool) (id : Key) (ks : List Key)
      → key_eq id k ≡ true
      → nest hash_type (if o then id ∷ ks else ks) (emit_if o b) ≡ some ks
  unfolding nest receive
  nest-close true id ks e = rw (marks (id ∷ ks), e)
  nest-close false id ks e = refl

  -- What a step leaves on both stacks, from the receiver's stack `opened`.
  Agrees : List Key → List Key → Filter × List Buffer → Type 0
  Agrees opened ks r =
      (keys r.0.stack ≡ ks) × (nest hash_type opened r.1 ≡ some (opened_keys r.0.stack))

  open_block-Agrees :
      (control : StreamControl) (at : Option ℕ) (fs : List Frame)
      → Fits at fs
      → receive (keys fs) k ≡ some (k ∷ keys fs)
      → Agrees (opened_keys fs) (k ∷ keys fs) (open_block control at fs k b)
  unfolding nest open_block Agrees
  open_block-Agrees control none fs h r =
      (refl, rw (marks (opened_keys fs), opened_keys-keys fs h, r))
  open_block-Agrees control (some d) fs h r = (refl, refl)

  receive-open :
      (f : Frame) (below : List Frame) (ks : List Key)
      → key_eq f.block_id k ≡ false
      → receive (keys (f ∷ below)) k ≡ some ks
      → k ∷ keys (f ∷ below) ≡ ks
  unfolding receive
  receive-open f below ks e r = ground arith

  receive-close :
      (f : Frame) (below : List Frame) (ks : List Key)
      → key_eq f.block_id k ≡ true
      → receive (keys (f ∷ below)) k ≡ some ks
      → keys below ≡ ks
  unfolding receive
  receive-close f below ks e r = ground arith

  receive-nil : receive [] k ≡ some (k ∷ [])
  unfolding receive
  receive-nil = refl

  receive-first : (ks : List Key) → receive [] k ≡ some ks → k ∷ [] ≡ ks
  unfolding receive
  receive-first ks r = cc

  on_marker-Agrees :
      (control : StreamControl) (at : Option ℕ) (fs : List Frame) (ks : List Key)
      → Fits at fs
      → receive (keys fs) k ≡ some ks
      → Agrees (opened_keys fs) ks (on_marker control at fs k b)
  unfolding on_marker Agrees
  on_marker-Agrees control at [] ks h r =
      subst (λ t. Agrees [] t (open_block control at [] k b)) (receive-first ks r)
        (open_block-Agrees control at [] h receive-nil)
  on_marker-Agrees control at (f ∷ below) ks h r = elim (Bool-cases (key_eq f.block_id k)) [
    | inl e ↦
        rw e (receive-close f below ks e r, nest-close f.opened f.block_id (opened_keys below) e)
    | inr e ↦
        let same = receive-open f below ks e r in
        rw e (
          subst (λ t. Agrees (opened_keys (f ∷ below)) t (open_block control at (f ∷ below) k b))
            same (open_block-Agrees control at (f ∷ below) h (r ∙ ap some (sym same))))
  ]

-- What the filter has reached at the end of a stream.
abbrev pub Reaches : Bytes → Filter → List Key → List Buffer → Type 0
Reaches hash_type s ks out =
    (last : Filter) × (keys last.stack ≡ ks)
    × (nest hash_type (opened_keys s.stack) out ≡ some (opened_keys last.stack))

pub then_with-eq-some :
    {A : Type 0} (o : Option A) (f : A → Option A) (b : A)
    → then_with o f ≡ some b
    → (a : A) × (o ≡ some a) × (f a ≡ some b)
then_with-eq-some none f b e = cc
then_with-eq-some (some a) f b e = (a, refl, e)

-- One step, and then the rest of the stream from where it led.
Reaches-step :
    (hash_type : Bytes) (s : Filter) (ks ks' : List Key) (r : Filter × List Buffer)
    (rest : List Buffer)
    → (keys r.0.stack ≡ ks)
    → (nest hash_type (opened_keys s.stack) r.1 ≡ some (opened_keys r.0.stack))
    → Reaches hash_type r.0 ks' rest
    → Reaches hash_type s ks' (r.1 ++ rest)
Reaches-step hash_type s ks ks' r rest k e (last, p, q) =
    (last, p, rw (nest-append hash_type (opened_keys s.stack) r.1 rest, e) q)

-- A chunk leaves both stacks alone, whether it goes out or not.
on_chunk-nest :
    (hash_type : Bytes) (control : StreamControl) (s : Filter) (b : Buffer) (ks : List Key)
    → b.block ≡ none
    → nest hash_type ks (on_chunk control s b).1 ≡ some ks
unfolding nest on_chunk
on_chunk-nest hash_type control s b ks e = go (or_outermost control s.skipping_at s.stack)
  where
    go : (at : Option ℕ) → nest hash_type ks (emit_unless at b) ≡ some ks
    go none = simp e
    go (some d) = refl

pub stack-on_chunk :
    (control : StreamControl) (s : Filter) (b : Buffer) → (on_chunk control s b).0.stack ≡ s.stack
unfolding on_chunk
stack-on_chunk control s b = refl

Marks-of :
    (hash_type : Bytes) (b : Buffer) (block : Block)
    → b.block ≡ some block
    → Marks hash_type b (get_hash_from_block hash_type block false true)
Marks-of hash_type b block e ks = rw e

-- One buffer of a stream in which the markers nest.
pub on_buffer-step :
    (hash_type : Bytes) (control : StreamControl) (s : Filter) (b : Buffer) (o : Option Block)
    (ks : List Key)
    → b.block ≡ o
    → after_buffer hash_type (keys s.stack) o ≡ some ks
    → Good s
    → Good (on_buffer hash_type control s b o).0
      × (keys (on_buffer hash_type control s b o).0.stack ≡ ks)
      × (nest hash_type (opened_keys s.stack) (on_buffer hash_type control s b o).1
          ≡ some (opened_keys (on_buffer hash_type control s b o).0.stack))
on_buffer-step hash_type control s b none ks e r h = (
  on_chunk-Good control s b h,
  ap keys (stack-on_chunk control s b) ∙ (cc),
  on_chunk-nest hash_type control s b (opened_keys s.stack) e
      ∙ ap (λ t. some (opened_keys t)) (sym (stack-on_chunk control s b)),
)
on_buffer-step hash_type control s b (some block) ks e r h =
    let k = get_hash_from_block hash_type block false true in
    let agrees =
      on_marker-Agrees hash_type b k (Marks-of hash_type b block e) control s.skipping_at s.stack ks
        h r in
    unfold Agrees in (on_marker-Good control s.skipping_at s.stack k b h, agrees.0, agrees.1)

pub skip_loop-Reaches :
    (hash_type : Bytes) (s : Filter) (stream : List (Buffer × StreamControl)) (ks : List Key)
    → Good s
    → nest hash_type (keys s.stack) (buffers stream) ≡ some ks
    → Reaches hash_type s ks (skip_loop hash_type s stream)
unfolding skip_loop nest
skip_loop-Reaches hash_type s [] ks h e = (s, cc, refl)
skip_loop-Reaches hash_type s ((b, control) ∷ rest) ks h e =
    let step = on_buffer hash_type control s b b.block in
    let (k, p, q) =
      then_with-eq-some (after_buffer hash_type (keys s.stack) b.block)
        (λ ks'. nest hash_type ks' (buffers rest)) ks e in
    let (good, same, out) = on_buffer-step hash_type control s b b.block k refl p h in
    Reaches-step hash_type s k ks step (skip_loop hash_type step.0 rest) same out
      (skip_loop-Reaches hash_type step.0 rest ks good (rw same q))

pub opened_keys-nil : (fs : List Frame) → keys fs ≡ [] → opened_keys fs ≡ []
opened_keys-nil [] e = refl
opened_keys-nil (f ∷ fs) e = cc

-- Where the markers of the stream nest and every block is closed, so they do in what the filter
-- sends, at whatever moments the peer's requests arrive: an end marker goes out exactly for the start
-- markers that went out, none intersect, and no block stays open at the receiver.
pub nest-skip_requested_blocks :
    (hash_type : Bytes) (control : Option StreamControl) (stream : List (Buffer × StreamControl))
    → nest hash_type [] (buffers stream) ≡ some []
    → nest hash_type [] (skip_requested_blocks hash_type control stream) ≡ some []
unfolding skip_requested_blocks
nest-skip_requested_blocks hash_type control stream e = elim (Bool-cases (is_enabled control)) [
  | inl on ↦
      let (last, p, q) = skip_loop-Reaches hash_type start stream [] tt e in
      rw on (q ∙ ap some (opened_keys-nil last.stack p))
  | inr off ↦ rw off e
]
