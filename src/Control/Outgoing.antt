-- ===== src/Control/Outgoing.antt =====
-- What is queued on an enabled control carries no payload.
use bee_rpc_over_grpc_py.Prelude.{
  ◌≡◌, ◌⊎◌, not, ◌&&◌, ◌||◌, contains, Bool-cases, refl, Bool, true, false, Option, none, some,
  List, [], ◌∷◌, ◌++◌, All, inl, inr, Option-cases,
}
use bee_rpc_over_grpc_py.Outcome.{Result, ok, err}
use bee_rpc_over_grpc_py.Trace.{next}
use bee_rpc_over_grpc_py.Varint.{Bytes}
use bee_rpc_over_grpc_py.Wire.{Buffer, nonempty}
use bee_rpc_over_grpc_py.Hex.{from_hex}
use bee_rpc_over_grpc_py.Control.{
  StreamControl, pop_outbound, skipped_block_id, add_skip, new_control, enqueue, after_lock,
  skip_buffer, request_skip, request_locked, pending_outbound, next_outbound, finish_sending,
  observe,
}
use bee_rpc_over_grpc_py.Control.Reader.{request_for}
use bee_rpc_over_grpc_py.Control.Queue.{
  Call, request, pending, next, finish, see, perform, perform_all,
}

-- The requests that `skip_buffer` makes.
abbrev pub IsRequest : Bytes → Buffer → Type 0
IsRequest hash_type b = (value : Bytes) × (request_for hash_type value ≡ b)

abbrev pub AllRequests : Bytes → List Buffer → Type 0
AllRequests hash_type bs = All (λ b. IsRequest hash_type b) bs

AllRequests-append :
    (hash_type : Bytes) (xs ys : List Buffer)
    → AllRequests hash_type xs
    → AllRequests hash_type ys
    → AllRequests hash_type (xs ++ ys)
AllRequests-append hash_type [] ys h k = k
AllRequests-append hash_type (x ∷ xs) ys (is_request, h) k =
    (is_request, AllRequests-append hash_type xs ys h k)

-- An enabled control whose queue holds skip requests alone.
pub record IsQueue (hash_type : Bytes) (c : StreamControl) : Type 0 where
  pub enabled : c.enabled ≡ true
  pub requests : AllRequests hash_type c.outbound

skip_buffer-IsRequest :
    (hash_type id : Bytes) (b : Buffer) → skip_buffer hash_type id ≡ some b → IsRequest hash_type b
unfolding skip_buffer
skip_buffer-IsRequest hash_type id b h = elim (Option-cases (from_hex id)) [
  | inl malformed ↦ cc (rw malformed at h)
  | inr (value, parsed) ↦ (value, cc (rw parsed at h))
]

enqueue-IsQueue :
    (hash_type : Bytes) (c : StreamControl) (id : Bytes) (o : Option Buffer)
    → IsQueue hash_type c
    → ((b : Buffer) → o ≡ some b → IsRequest hash_type b)
    → IsQueue hash_type (enqueue c id o).0
enqueue-IsQueue hash_type c id none q inert = record { enabled = q.enabled; requests = q.requests }
enqueue-IsQueue hash_type c id (some b) q inert = record {
  enabled = q.enabled;
  requests = AllRequests-append hash_type c.outbound (b ∷ []) q.requests (inert b refl, tt);
}

request_locked-IsQueue :
    (hash_type : Bytes) (c : StreamControl) (id : Bytes)
    → IsQueue hash_type c
    → IsQueue hash_type (request_locked hash_type c id).0
unfolding request_locked
request_locked-IsQueue hash_type c id q = elim (Bool-cases (not c.enabled || not (nonempty id))) [
  | inl off ↦ rw off q
  | inr on ↦ rw on (elim (Bool-cases (contains c.asked id)) [
    | inl asked ↦ rw asked q
    | inr new ↦ rw new (enqueue-IsQueue hash_type c id _ q (skip_buffer-IsRequest hash_type id))
  ])
]

after_lock-IsQueue :
    (hash_type : Bytes) (c : StreamControl) (r : Result Bool)
    → IsQueue hash_type c
    → IsQueue hash_type (after_lock c r).0
after_lock-IsQueue hash_type c (ok true) q = record { enabled = q.enabled; requests = q.requests }
after_lock-IsQueue hash_type c (ok false) q = q
after_lock-IsQueue hash_type c (err e) q = q

List-cases :
    (bs : List Buffer) → (bs ≡ []) ⊎ ((b : Buffer) × (more : List Buffer) × (bs ≡ b ∷ more))
List-cases [] = inl refl
List-cases (b ∷ more) = inr (b, more, refl)

-- The queue is taken whole.
pub pending_outbound-IsQueue :
    (hash_type : Bytes) (c : StreamControl)
    → IsQueue hash_type c
    → ((pending_outbound c).1 ≡ c.outbound)
      × ((pending_outbound c).0.outbound ≡ [])
      × ((pending_outbound c).0.enabled ≡ true)
unfolding pending_outbound
pending_outbound-IsQueue hash_type c q = elim (List-cases c.outbound) [
  | inl empty ↦ simp (q.enabled, empty) (refl, refl, refl)
  | inr (b, bs, some_there) ↦ simp (q.enabled, some_there) (refl, refl, refl)
]

pub next_outbound-IsQueue :
    (hash_type : Bytes) (c : StreamControl)
    → IsQueue hash_type c
    → IsQueue hash_type (next_outbound c).0
unfolding next_outbound
next_outbound-IsQueue hash_type c q = elim (Bool-cases (c.enabled && c.outbound_ready)) [
  | inl awake ↦ rw awake (popped c.outbound q.requests)
  | inr asleep ↦ rw asleep q
]
  where
    popped : (bs : List Buffer) → AllRequests hash_type bs → IsQueue hash_type (pop_outbound c bs).0
    popped [] h = record { enabled = q.enabled; requests = q.requests }
    popped (b ∷ bs) (inert, h) = record { enabled = q.enabled; requests = h }

observe-IsQueue :
    (hash_type : Bytes) (c : StreamControl) (b : Buffer)
    → IsQueue hash_type c
    → IsQueue hash_type (observe hash_type c b).0
unfolding observe
observe-IsQueue hash_type c b q = elim (Bool-cases c.enabled) [
  | inl on ↦ simp on (added (skipped_block_id hash_type b))
  | inr off ↦ simp off q
]
  where
    added : (o : Option Bytes) → IsQueue hash_type (add_skip c o).0
    added none = q
    added (some id) = record { enabled = q.enabled; requests = q.requests }

perform-IsQueue :
    (hash_type : Bytes) (c : StreamControl) (call : Call)
    → IsQueue hash_type c
    → IsQueue hash_type (perform hash_type c call)
unfolding perform
perform-IsQueue hash_type c (request id) q =
    unfold request_skip in
    after_lock-IsQueue hash_type _ (request_locked hash_type c id).1
      (request_locked-IsQueue hash_type c id q)
perform-IsQueue hash_type c pending q =
    let (out, emptied, on) = pending_outbound-IsQueue hash_type c q in
    record { enabled = on; requests = rw emptied tt }
perform-IsQueue hash_type c next q = next_outbound-IsQueue hash_type c q
perform-IsQueue hash_type c finish q =
    unfold finish_sending in record { enabled = q.enabled; requests = q.requests }
perform-IsQueue hash_type c (see b) q = observe-IsQueue hash_type c b q

pub perform_all-IsQueue :
    (hash_type : Bytes) (c : StreamControl) (calls : List Call)
    → IsQueue hash_type c
    → IsQueue hash_type (perform_all hash_type c calls)
unfolding perform_all
perform_all-IsQueue hash_type c [] q = q
perform_all-IsQueue hash_type c (call ∷ calls) q =
    perform_all-IsQueue hash_type (perform hash_type c call) calls
      (perform-IsQueue hash_type c call q)

pub next_outbound-IsRequest :
    (hash_type : Bytes) (c : StreamControl) (b : Buffer)
    → IsQueue hash_type c
    → (next_outbound c).1 ≡ some b
    → IsRequest hash_type b
unfolding next_outbound
next_outbound-IsRequest hash_type c b q h = elim (Bool-cases (c.enabled && c.outbound_ready)) [
  | inl awake ↦ first c.outbound q.requests (rw awake at h)
  | inr asleep ↦ cc (rw asleep at h)
]
  where
    first :
        (bs : List Buffer)
        → AllRequests hash_type bs
        → (pop_outbound c bs).1 ≡ some b
        → IsRequest hash_type b
    first [] inert k = cc
    first (b' ∷ bs) (inert, more) k = let same : b' ≡ b = cc in rw⁻¹ same inert

pub new_control-IsQueue : (hash_type : Bytes) → IsQueue hash_type (new_control true)
new_control-IsQueue hash_type = record { enabled = refl; requests = tt }
