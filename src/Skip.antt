-- ===== src/Skip.antt =====
-- The sender's filter `skip_requested_blocks` (src/bee_rpc/client.py). The peer's requests arrive on
-- another thread while the filter runs, so each buffer of the stream comes with the control as it
-- stands when the filter handles that buffer: any growth of the request set between two buffers is a
-- sequence of such moments.
pub mod Receiver
pub mod Nesting
pub mod Content
pub mod Items
pub mod Tree
mod Runs
use bee_rpc_over_grpc_py.Prelude.{
  ℕ, suc, Bool, true, false, Option, none, some, List, [], ◌∷◌, ◌++◌, length, bytes_eq, ◌==◌,
  if◌then◌else◌,
}
use bee_rpc_over_grpc_py.Varint.{Bytes}
use bee_rpc_over_grpc_py.Wire.{Block, Buffer}
use bee_rpc_over_grpc_py.Pointer.{get_hash_from_block}
use bee_rpc_over_grpc_py.Control.{StreamControl, should_skip}

-- What `get_hash_from_block` returns: an id, or `None`.
abbrev pub Key : Type 0
Key = Option Bytes

abbrev pub key_eq : Key → Key → Bool
key_eq none none = true
key_eq none (some b) = false
key_eq (some a) none = false
key_eq (some a) (some b) = bytes_eq a b

-- The entries of `stack` and `opened` at one depth.
pub record Frame : Type 0 where
  pub block_id : Key
  pub opened : Bool

-- The frames stand innermost first. `skipping_at` is the depth, from 1, of the skipped block.
pub record Filter : Type 0 where
  pub stack : List Frame
  pub skipping_at : Option ℕ

abbrev pub start : Filter
start = record { stack = []; skipping_at = none }

-- The depth found further out counts before this one.
abbrev pub outer_first : Option ℕ → Bool → ℕ → Option ℕ
outer_first (some depth) here at = some depth
outer_first none here at = if here then some at else none

unfoldable pub outermost_skipped : StreamControl → List Frame → Option ℕ
outermost_skipped control [] = none
outermost_skipped control (f ∷ below) =
    outer_first (outermost_skipped control below) (should_skip control f.block_id)
      (suc (length below))

abbrev pub emit_if : Bool → Buffer → List Buffer
emit_if opened b = if opened then b ∷ [] else []

-- `if skipping_at == depth: skipping_at = None`
abbrev pub resume : Option ℕ → ℕ → Option ℕ
resume none depth = none
resume (some at) depth = if at == depth then none else some at

-- The end marker of the innermost open block `f`.
abbrev pub close_block : Option ℕ → Frame → List Frame → Buffer → Filter × List Buffer
close_block skipping_at f below b = (
  record { stack = below; skipping_at = resume skipping_at (suc (length below)) },
  emit_if f.opened b,
)

-- A start marker.
unfoldable pub open_block :
    StreamControl → Option ℕ → List Frame → Key → Buffer → Filter × List Buffer
unfolding outermost_skipped
open_block control none stack block_id b =
    let stack' = record { block_id = block_id; opened = true } ∷ stack in
    (record { stack = stack'; skipping_at = outermost_skipped control stack' }, b ∷ [])
open_block control (some at) stack block_id b = (
  record { stack = record { block_id = block_id; opened = false } ∷ stack; skipping_at = some at },
  [],
)

unfoldable pub on_marker :
    StreamControl → Option ℕ → List Frame → Key → Buffer → Filter × List Buffer
unfolding open_block
on_marker control skipping_at [] block_id b = open_block control skipping_at [] block_id b
on_marker control skipping_at (f ∷ below) block_id b =
    if key_eq f.block_id block_id
    then close_block skipping_at f below b
    else open_block control skipping_at (f ∷ below) block_id b

-- `if skipping_at is None: skipping_at = outermost_skipped()`
abbrev pub or_outermost : StreamControl → Option ℕ → List Frame → Option ℕ
or_outermost control none stack = outermost_skipped control stack
or_outermost control (some at) stack = some at

abbrev pub emit_unless : Option ℕ → Buffer → List Buffer
emit_unless none b = b ∷ []
emit_unless (some at) b = []

unfoldable pub on_chunk : StreamControl → Filter → Buffer → Filter × List Buffer
unfolding outermost_skipped
on_chunk control s b =
    let at = or_outermost control s.skipping_at s.stack in
    (record s { skipping_at = at }, emit_unless at b)

abbrev pub on_buffer : Bytes → StreamControl → Filter → Buffer → Option Block → Filter × List Buffer
on_buffer hash_type control s b none = on_chunk control s b
on_buffer hash_type control s b (some block) =
    on_marker control s.skipping_at s.stack (get_hash_from_block hash_type block false true) b

unfoldable pub skip_loop : Bytes → Filter → List (Buffer × StreamControl) → List Buffer
unfolding on_chunk on_marker
skip_loop hash_type s [] = []
skip_loop hash_type s ((b, control) ∷ rest) =
    let (s', out) = on_buffer hash_type control s b b.block in out ++ skip_loop hash_type s' rest

-- The buffers of the stream without the moments.
abbrev pub buffers : List (Buffer × StreamControl) → List Buffer
buffers [] = []
buffers ((b, control) ∷ rest) = b ∷ buffers rest

abbrev pub is_enabled : Option StreamControl → Bool
is_enabled none = false
is_enabled (some control) = control.enabled

unfoldable pub skip_requested_blocks :
    Bytes → Option StreamControl → List (Buffer × StreamControl) → List Buffer
unfolding skip_loop
skip_requested_blocks hash_type control stream =
    if is_enabled control then skip_loop hash_type start stream else buffers stream
