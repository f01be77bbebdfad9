-- ===== src/Skip/Receiver.antt =====
-- The receiver of the filtered stream, and the shape that the filter's state keeps.
use bee_rpc_over_grpc_py.Prelude.{
  ℕ, suc, ◌≤◌, ◌≡◌, refl, ap, Bool, true, false, ◌||◌, Option, none, some, List, [], ◌∷◌, length,
  ◌==◌, if◌then◌else◌, arith, inl, inr, Bool-cases, Option-cases,
}
use bee_rpc_over_grpc_py.Varint.{Bytes}
use bee_rpc_over_grpc_py.Wire.{Block, Buffer}
use bee_rpc_over_grpc_py.Pointer.{get_hash_from_block}
use bee_rpc_over_grpc_py.Control.{StreamControl}
use bee_rpc_over_grpc_py.Skip.{
  Key, key_eq, Frame, Filter, outermost_skipped, resume, open_block, on_marker, or_outermost,
  on_chunk,
}

abbrev pub key_in : List Key → Key → Bool
key_in [] k = false
key_in (t ∷ ts) k = key_eq t k || key_in ts k

-- A receiver's stack of open blocks, innermost first, after one marker: it closes the innermost
-- block, or it opens a new one; a marker of a block that is open further out is an intersection.
unfoldable pub receive : List Key → Key → Option (List Key)
receive [] k = some (k ∷ [])
receive (t ∷ ts) k = if key_eq t k then some ts else if key_in ts k then none else some (k ∷ t ∷ ts)

abbrev pub after_buffer : Bytes → List Key → Option Block → Option (List Key)
after_buffer hash_type open_blocks none = some open_blocks
after_buffer hash_type open_blocks (some block) =
    receive open_blocks (get_hash_from_block hash_type block false true)

abbrev pub then_with {ℓ} : {A : Type ℓ} → Option A → (A → Option A) → Option A
then_with none f = none
then_with (some a) f = f a

-- The blocks that stay open behind a stream; `none` where blocks intersect.
unfoldable pub nest : Bytes → List Key → List Buffer → Option (List Key)
unfolding receive
nest hash_type open_blocks [] = some open_blocks
nest hash_type open_blocks (b ∷ bs) =
    then_with (after_buffer hash_type open_blocks b.block) (λ ks. nest hash_type ks bs)

abbrev pub keys : List Frame → List Key
keys [] = []
keys (f ∷ fs) = f.block_id ∷ keys fs

-- The blocks whose start marker went out: what the receiver has open.
abbrev pub opened_keys : List Frame → List Key
opened_keys [] = []
opened_keys (f ∷ fs) = if f.opened then f.block_id ∷ opened_keys fs else opened_keys fs

-- The frames at depth `d` and further out are open.
abbrev pub OpenTo : ℕ → List Frame → Type 0
OpenTo d [] = Unit
OpenTo d (f ∷ fs) = (suc (length fs) ≤ d → f.opened ≡ true) × OpenTo d fs

abbrev pub Fits : Option ℕ → List Frame → Type 0
Fits none fs = OpenTo (length fs) fs
Fits (some d) fs = (1 ≤ d) × (d ≤ length fs) × OpenTo d fs

pub OpenTo-le : (d e : ℕ) (fs : List Frame) → d ≤ e → OpenTo e fs → OpenTo d fs
OpenTo-le d e [] h o = tt
OpenTo-le d e (f ∷ fs) h o = (λ p. o.0 (omega arith), OpenTo-le d e fs h o.1)

pub OpenTo-ge : (d : ℕ) (fs : List Frame) → OpenTo (length fs) fs → OpenTo d fs
OpenTo-ge d [] o = tt
OpenTo-ge d (f ∷ fs) o = (
  λ p. o.0 (omega arith),
  OpenTo-ge d fs (OpenTo-le (length fs) (suc (length fs)) fs (omega arith) o.1),
)

pub opened_keys-keys : (fs : List Frame) → OpenTo (length fs) fs → opened_keys fs ≡ keys fs
opened_keys-keys [] o = refl
opened_keys-keys (f ∷ fs) o = rw (o.0 (omega arith)) (
    ap (λ t. f.block_id ∷ t)
      (opened_keys-keys fs (OpenTo-le (length fs) (suc (length fs)) fs (omega arith) o.1)))

pub outermost-bounds :
    (control : StreamControl) (fs : List Frame) (d : ℕ)
    → outermost_skipped control fs ≡ some d
    → (1 ≤ d) × (d ≤ length fs)
unfolding outermost_skipped
outermost-bounds control [] d e = cc
outermost-bounds control (f ∷ fs) d e = ground (arith, outermost-bounds control fs d)

pub outermost-Fits :
    (control : StreamControl) (fs : List Frame)
    → OpenTo (length fs) fs
    → Fits (outermost_skipped control fs) fs
outermost-Fits control fs o = elim (Option-cases (outermost_skipped control fs)) [
  | inl e ↦ rw e o
  | inr (d, e) ↦ let (a, b) = outermost-bounds control fs d e in rw e (a, b, OpenTo-ge d fs o)
]

abbrev pub Good : Filter → Type 0
Good s = Fits s.skipping_at s.stack

pub resume-Fits :
    (at : Option ℕ) (f : Frame) (below : List Frame)
    → Fits at (f ∷ below)
    → Fits (resume at (suc (length below))) below
resume-Fits none f below h = OpenTo-le (length below) (suc (length below)) below (omega arith) h.1
resume-Fits (some d) f below h = elim (Bool-cases (d == suc (length below))) [
  | inl e ↦ rw e (OpenTo-le (length below) d below (ground arith) h.2.1)
  | inr e ↦ rw e (h.0, ground arith, h.2.1)
]

pub open_block-Good :
    (control : StreamControl) (at : Option ℕ) (fs : List Frame) (k : Key) (b : Buffer)
    → Fits at fs
    → Good (open_block control at fs k b).0
unfolding open_block
open_block-Good control none fs k b h =
    outermost-Fits control (record { block_id = k; opened = true } ∷ fs)
      (λ p. refl, OpenTo-ge (suc (length fs)) fs h)
open_block-Good control (some d) fs k b h = (h.0, omega arith, (λ p. absurd (omega arith), h.2))

pub on_marker-Good :
    (control : StreamControl) (at : Option ℕ) (fs : List Frame) (k : Key) (b : Buffer)
    → Fits at fs
    → Good (on_marker control at fs k b).0
unfolding on_marker
on_marker-Good control at [] k b h = open_block-Good control at [] k b h
on_marker-Good control at (f ∷ below) k b h = elim (Bool-cases (key_eq f.block_id k)) [
  | inl e ↦ rw e (resume-Fits at f below h)
  | inr e ↦ rw e (open_block-Good control at (f ∷ below) k b h)
]

pub on_chunk-Good :
    (control : StreamControl) (s : Filter) (b : Buffer) → Good s → Good (on_chunk control s b).0
unfolding on_chunk
on_chunk-Good control s b h = go s.skipping_at h
  where
    go : (at : Option ℕ) → Fits at s.stack → Fits (or_outermost control at s.stack) s.stack
    go none o = outermost-Fits control s.stack o
    go (some d) o = o
