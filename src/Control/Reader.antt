-- ===== src/Control/Reader.antt =====
-- What `reader` lets through, and what the sender learns from it.
use bee_rpc_over_grpc_py.Prelude.{
  ◌≡◌, refl, ◌∙◌, Bool, true, false, ◌||◌, Option, none, some, List, [], ◌∷◌, ◌++◌, contains,
  bytes_eq, bytes_eq_refl, if◌then◌else◌, arith, All,
}
use bee_rpc_over_grpc_py.Varint.{Bytes, IsByte}
use bee_rpc_over_grpc_py.Hex.{hex, from_hex-hex}
use bee_rpc_over_grpc_py.Wire.{Buffer, empty_buffer, nonempty}
use bee_rpc_over_grpc_py.Pointer.{pointer_of_bytes}
use bee_rpc_over_grpc_py.Control.{
  StreamControl, skip_buffer, skipped_block_id, is_inert, request_locked, request_skip,
  pending_outbound, observe, should_skip, reader, watch, clear_skip, forward,
}

-- What a parser that does not know the field `skip` makes of a stream: the buffers that carry
-- something else, without that field.
pub payload : List Buffer → List Buffer
payload [] = []
payload (b ∷ bs) = if is_inert b then payload bs else clear_skip b ∷ payload bs

is_inert-clear_skip : (b : Buffer) → is_inert (clear_skip b) ≡ is_inert b
unfolding is_inert
is_inert-clear_skip b = refl

payload-forward :
    (seen : Bool) (b : Buffer) (rest : List Buffer)
    → payload (forward seen b ++ rest) ≡ payload (b ∷ rest)
unfolding payload
payload-forward false b rest = refl
payload-forward true b rest = ground (arith, is_inert-clear_skip b)

payload-step :
    (enabled seen : Bool) (b : Buffer) (out : List Buffer)
    → payload (if enabled then forward seen b ++ out else b ∷ out) ≡ payload (b ∷ out)
payload-step true seen b out = payload-forward seen b out
payload-step false seen b out = refl

payload-cons :
    (b : Buffer) (xs ys : List Buffer)
    → payload xs ≡ payload ys
    → payload (b ∷ xs) ≡ payload (b ∷ ys)
unfolding payload
payload-cons b xs ys e = rw e

-- `reader` neither loses nor reorders payload: the parser finds in what it yields just what the
-- stream holds beside the skip requests.
pub payload-reader :
    (hash_type : Bytes) (c : StreamControl) (bs : List Buffer)
    → payload (reader hash_type c bs).1 ≡ payload bs
unfolding reader
payload-reader hash_type c [] = refl
payload-reader hash_type c (b ∷ bs) =
    payload-step c.enabled (observe hash_type c b).1 b _
    ∙ payload-cons b _ bs (payload-reader hash_type (observe hash_type c b).0 bs)

-- On the whole stream `reader` records the same requests as `watch` does.
reader-watch :
    (hash_type : Bytes) (c : StreamControl) (bs : List Buffer)
    → (reader hash_type c bs).0 ≡ watch hash_type c bs
unfolding reader watch
reader-watch hash_type c [] = refl
reader-watch hash_type c (b ∷ bs) = reader-watch hash_type (observe hash_type c b).0 bs

-- The stream has a skip request for `id`.
abbrev is_for : Bytes → Option Bytes → Bool
is_for id none = false
is_for id (some other) = bytes_eq other id

abbrev pub is_requested : Bytes → Bytes → List Buffer → Bool
is_requested hash_type id [] = false
is_requested hash_type id (b ∷ bs) =
    is_for id (skipped_block_id hash_type b) || is_requested hash_type id bs

pub enabled-observe :
    (hash_type : Bytes) (c : StreamControl) (b : Buffer)
    → (observe hash_type c b).0.enabled ≡ c.enabled
unfolding observe
enabled-observe hash_type c b = ground arith

contains-observe :
    (hash_type : Bytes) (c : StreamControl) (b : Buffer) (id : Bytes)
    → c.enabled ≡ true
    → contains (observe hash_type c b).0.skip id
      ≡ (is_for id (skipped_block_id hash_type b) || contains c.skip id)
unfolding observe contains
contains-observe hash_type c b id on = ground arith

contains-watch :
    (hash_type : Bytes) (c : StreamControl) (bs : List Buffer) (id : Bytes)
    → c.enabled ≡ true
    → contains (watch hash_type c bs).skip id ≡ (contains c.skip id || is_requested hash_type id bs)
unfolding watch
contains-watch hash_type c [] id on = ground arith
contains-watch hash_type c (b ∷ bs) id on = ground (
  arith,
  contains-watch hash_type (observe hash_type c b).0 bs id (enabled-observe hash_type c b ∙ on),
  contains-observe hash_type c b id on,
)

enabled-watch :
    (hash_type : Bytes) (c : StreamControl) (bs : List Buffer)
    → (watch hash_type c bs).enabled ≡ c.enabled
unfolding watch
enabled-watch hash_type c [] = refl
enabled-watch hash_type c (b ∷ bs) =
    enabled-watch hash_type (observe hash_type c b).0 bs ∙ enabled-observe hash_type c b

-- On an enabled control, once the stream `bs` has been read, the sender skips exactly the blocks
-- that it skipped before and those that a buffer of `bs` asks it to skip.
pub should_skip-reader :
    (hash_type : Bytes) (c : StreamControl) (bs : List Buffer) (id : Bytes)
    → c.enabled ≡ true
    → nonempty id ≡ true
    → should_skip (reader hash_type c bs).0 (some id)
      ≡ (contains c.skip id || is_requested hash_type id bs)
unfolding should_skip
should_skip-reader hash_type c bs id on named =
    simp (reader-watch hash_type c bs, enabled-watch hash_type c bs, on, named)
      (contains-watch hash_type c bs id on)

-- The buffer that asks for the block `value`.
abbrev pub request_for : Bytes → Bytes → Buffer
request_for hash_type value = record empty_buffer {
  skip = some (pointer_of_bytes hash_type value false);
  chunk = some [];
}

skip_buffer-hex :
    (hash_type value : Bytes)
    → All IsByte value
    → skip_buffer hash_type (hex value) ≡ some (request_for hash_type value)
unfolding skip_buffer
skip_buffer-hex hash_type value bytes = rw (skip_buffer, from_hex-hex value bytes)

pub skipped_block_id-request_for :
    (hash_type value : Bytes)
    → skipped_block_id hash_type (request_for hash_type value) ≡ some (hex value)
unfolding skipped_block_id pointer_of_bytes
skipped_block_id-request_for hash_type value = rw (bytes_eq_refl hash_type)

is_requested-append :
    (hash_type id : Bytes) (xs ys : List Buffer)
    → is_requested hash_type id (xs ++ ys)
      ≡ (is_requested hash_type id xs || is_requested hash_type id ys)
is_requested-append hash_type id [] ys = refl
is_requested-append hash_type id (x ∷ xs) ys =
    ground (arith, is_requested-append hash_type id xs ys)

-- What a fresh request leaves at the end of the queue, for `pending_outbound` to send.
pending_outbound-request_skip :
    (hash_type value : Bytes) (c : StreamControl)
    → All IsByte value
    → c.enabled ≡ true
    → nonempty (hex value) ≡ true
    → contains c.asked (hex value) ≡ false
    → (pending_outbound (request_skip hash_type c (hex value)).0).1
      ≡ c.outbound ++ (request_for hash_type value ∷ [])
unfolding request_skip request_locked pending_outbound
pending_outbound-request_skip hash_type value c bytes on named new =
    ground (arith, skip_buffer-hex hash_type value bytes)

-- From the receiver's request to the sender's decision: an enabled receiver asks for a block that
-- it had not asked for, by a nonempty id of bytes, its outgoing stream carries the queue, and an
-- enabled sender of the same hash type that reads that stream skips the block.
pub should_skip-request_skip :
    (hash_type value : Bytes) (receiver sender : StreamControl)
    → All IsByte value
    → nonempty (hex value) ≡ true
    → receiver.enabled ≡ true
    → sender.enabled ≡ true
    → contains receiver.asked (hex value) ≡ false
    → should_skip
        (reader hash_type sender
          (pending_outbound (request_skip hash_type receiver (hex value)).0).1).0
        (some (hex value))
      ≡ true
should_skip-request_skip hash_type value receiver sender bytes named on open_sender new =
    rw (pending_outbound-request_skip hash_type value receiver bytes on named new) (
      should_skip-reader hash_type sender _ (hex value) open_sender named
      ∙ rw
          (is_requested-append hash_type (hex value) receiver.outbound
            (request_for hash_type value ∷ []))
          (ground (arith, skipped_block_id-request_for hash_type value, bytes_eq_refl (hex value))))
