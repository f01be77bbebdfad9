-- ===== src/Sending/Outbound.antt =====
-- Skip requests ride along: the peer's reader takes them out again, and none is left behind.
pub mod OpenDirection
use mathlib.Core.Path.{subst}
use bee_rpc_over_grpc_py.Prelude.{
  ℕ, suc, ◌≤◌, length, arith, ◌≡◌, refl, sym, ap, ◌∙◌, true, Option, none, some, List, [], ◌∷◌,
  ◌++◌, append-nil, append_assoc, All, inl, inr,
}
use bee_rpc_over_grpc_py.Outcome.{ok, Result-cases}
use bee_rpc_over_grpc_py.Trace.{drain-next, Trace, stop, raise, next, drain}
use bee_rpc_over_grpc_py.Varint.{Bytes}
use bee_rpc_over_grpc_py.Wire.{Buffer}
use bee_rpc_over_grpc_py.Control.{StreamControl, new_control, next_outbound, reader, finish_sending}
use bee_rpc_over_grpc_py.Control.Queue.{Call, next, perform_all}
use bee_rpc_over_grpc_py.Control.Outgoing.{
  IsRequest, AllRequests, IsQueue, pending_outbound-IsQueue, next_outbound-IsQueue,
  next_outbound-IsRequest, perform_all-IsQueue, new_control-IsQueue,
}
use bee_rpc_over_grpc_py.Control.Passing.{
  enabled-reader, reader-append, reader-AllRequests, reader-payload,
}
use bee_rpc_over_grpc_py.Sending.Interleave.{
  Schedule, now, after_now, Controlled, yield_all, yield_before, take_pending, interleave,
  with_control, hold_open, request_stream, forwarded, then_hold,
}

drain-yield_all :
    (xs ys : List Buffer) (t : Trace Buffer)
    → drain t ≡ ok ys
    → drain (yield_all xs t) ≡ ok (xs ++ ys)
drain-yield_all [] ys t h = h
drain-yield_all (x ∷ xs) ys t h = rw (drain-yield_all xs ys t h) refl

-- No buffer of the payload has the field `skip`.
abbrev pub NoSkip : List Buffer → Type 0
NoSkip bs = All (λ b. b.skip ≡ none) bs

length-after_now :
    (schedule : Schedule) (n : ℕ)
    → length schedule ≤ suc (suc n)
    → length (after_now schedule) ≤ suc n
length-after_now [] n h = omega arith
length-after_now (calls ∷ later) n h = omega (arith, h)

no_last_calls : (schedule : Schedule) → length schedule ≤ 1 → now (after_now schedule) ≡ []
no_last_calls [] h = refl
no_last_calls (calls ∷ []) h = refl
no_last_calls (calls ∷ last ∷ later) h = absurd (omega (arith, h))

module _ (hash_type : Bytes) where
  take_pending-IsQueue :
      (c : StreamControl) (schedule : Schedule)
      → IsQueue hash_type c
      → IsQueue hash_type (take_pending hash_type c schedule).0
        × ((take_pending hash_type c schedule).0.outbound ≡ [])
        × AllRequests hash_type (take_pending hash_type c schedule).1
  take_pending-IsQueue c schedule q =
      let q' = perform_all-IsQueue hash_type c (now schedule) q in
      let (out, emptied, on) =
        pending_outbound-IsQueue hash_type (perform_all hash_type c (now schedule)) q' in
      (record { enabled = on; requests = rw emptied tt }, emptied, rw out q'.requests)

  -- What the peer's `reader` passes on of a stream.
  abbrev pub Passes : List Buffer → List Buffer → Type 0
  Passes out bs = (peer : StreamControl) → peer.enabled ≡ true → (reader hash_type peer out).1 ≡ bs

  -- The payload comes through, the queue is empty in the end where nothing is called behind the last
  -- `pending_outbound`, and the end is marked.
  abbrev pub ComesThrough : Schedule → List Buffer → Controlled → Type 0
  ComesThrough schedule bs (t, c) =
      ((out : List Buffer) × (drain t ≡ ok out) × Passes out bs)
      × IsQueue hash_type c
      × (length schedule ≤ suc (length bs) → c.outbound ≡ [])
      × (c.sending_done ≡ true)

  Passes-next :
      (outbound out tail : List Buffer) (b : Buffer)
      → AllRequests hash_type outbound
      → b.skip ≡ none
      → Passes out tail
      → Passes ((outbound ++ (b ∷ [])) ++ out) (b ∷ tail)
  Passes-next outbound out tail b requests plain passes peer on =
      let peer' = (reader hash_type peer outbound).0 in
      let on' = enabled-reader hash_type peer outbound ∙ on in
      ap (λ bs. (reader hash_type peer bs).1) (append_assoc outbound (b ∷ []) out)
      ∙ reader-append hash_type peer outbound (b ∷ out) on
      ∙ ap (λ bs. bs ++ (reader hash_type peer' (b ∷ out)).1)
          (reader-AllRequests hash_type peer outbound on requests)
      ∙ reader-payload hash_type peer' b out on' plain
      ∙ ap (λ bs. b ∷ bs) (passes peer' on')

  pub Passes-behind :
      (out held bs : List Buffer)
      → AllRequests hash_type held
      → Passes out bs
      → Passes (out ++ held) bs
  Passes-behind out held bs requests passes peer on =
      let peer' = (reader hash_type peer out).0 in
      reader-append hash_type peer out held on
      ∙ ap (λ xs. (reader hash_type peer out).1 ++ xs)
          (reader-AllRequests hash_type peer' held (enabled-reader hash_type peer out ∙ on)
            requests)
      ∙ append-nil (reader hash_type peer out).1
      ∙ passes peer on

  next-ComesThrough :
      (schedule : Schedule) (outbound : List Buffer) (b : Buffer) (tail : List Buffer)
      (later : Controlled)
      → AllRequests hash_type outbound
      → b.skip ≡ none
      → ComesThrough (after_now schedule) tail later
      → ComesThrough schedule (b ∷ tail) (yield_before (outbound ++ (b ∷ [])) later)
  next-ComesThrough schedule outbound b tail (t, c) requests plain
        ((out, drained, passes), q, emptied, done) =
      (
        (
          (outbound ++ (b ∷ [])) ++ out,
          drain-yield_all (outbound ++ (b ∷ [])) out t drained,
          Passes-next outbound out tail b requests plain passes,
        ),
        q,
        λ h. emptied (length-after_now schedule (length tail) h),
        done,
      )

  pub interleave-ComesThrough :
      (c : StreamControl) (schedule : Schedule) (t : Trace Buffer) (bs : List Buffer)
      → IsQueue hash_type c
      → drain t ≡ ok bs
      → NoSkip bs
      → ComesThrough schedule bs (interleave hash_type c schedule t)
  unfolding interleave
  interleave-ComesThrough c schedule stop [] q h plain =
      let (q', emptied, requests) = take_pending-IsQueue c schedule q in
      let (c', outbound) = take_pending hash_type c schedule in
      let q'' = perform_all-IsQueue hash_type c' (now (after_now schedule)) q' in
      (
        (
          outbound ++ [],
          drain-yield_all outbound [] stop refl,
          λ peer on.
              ap (λ bs. (reader hash_type peer bs).1) (append-nil outbound)
              ∙ reader-AllRequests hash_type peer outbound on requests,
        ),
        (unfold finish_sending in record { enabled = q''.enabled; requests = q''.requests }),
        λ h.
            (unfold finish_sending in
              rw (no_last_calls schedule h) (unfold perform_all in emptied)),
        (unfold finish_sending in refl),
      )
  interleave-ComesThrough c schedule stop (x ∷ xs) q h plain = cc
  interleave-ComesThrough c schedule (raise e) bs q h plain = cc
  interleave-ComesThrough c schedule (next b t) bs q h plain =
      let (q', emptied, requests) = take_pending-IsQueue c schedule q in
      let (c', outbound) = take_pending hash_type c schedule in
      let (tail, drained, same) = drain-next b t bs h in
      let (plain_here, plain_behind) = subst (λ xs. NoSkip xs) same plain in
      subst
        (λ xs.
          ComesThrough schedule xs
            (yield_before (outbound ++ (b ∷ [])) (interleave hash_type c' (after_now schedule) t)))
        (sym same)
        (next-ComesThrough schedule outbound b tail (interleave hash_type c' (after_now schedule) t)
          requests plain_here
          (interleave-ComesThrough c' (after_now schedule) t tail q' drained plain_behind))

  with_control-ComesThrough :
      (before : List Call) (schedule : Schedule) (t : Trace Buffer) (bs : List Buffer)
      → drain t ≡ ok bs
      → NoSkip bs
      → ComesThrough schedule bs
          (with_control hash_type (perform_all hash_type (new_control true) before) schedule t)
  unfolding with_control
  with_control-ComesThrough before schedule t bs h plain =
      let c = perform_all hash_type (new_control true) before in
      let q =
        perform_all-IsQueue hash_type (new_control true) before (new_control-IsQueue hash_type) in
      rw q.enabled (interleave-ComesThrough c schedule t bs q h plain)

  -- The payload comes through, whatever other threads call between the steps.
  pub with_control-Passes :
      (before : List Call) (schedule : Schedule) (t : Trace Buffer) (bs : List Buffer)
      → drain t ≡ ok bs
      → NoSkip bs
      → (out : List Buffer) × (drain
            (with_control hash_type (perform_all hash_type (new_control true) before) schedule t).0
          ≡ ok out)
        × Passes out bs
  with_control-Passes before schedule t bs h plain =
      (with_control-ComesThrough before schedule t bs h plain).0
