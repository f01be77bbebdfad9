-- ===== src/ChunkReader/Stream.antt =====
-- The reader loses no byte: what it hands out, and what is still to come, make the stream.
use Prim.Native.Nat.{min}
use mathlib.Core.Path.{subst}
use bee_rpc_over_grpc_py.Prelude.{
  ℕ, zero, suc, ◌-◌, ◌≤◌, ◌<◌, ◌≡◌, refl, sym, ap, ◌∙◌, Bool, true, false, [], ◌∷◌, ◌++◌,
  append-nil, append_assoc, length, take, drop, length-append, length-take, take-append-drop, arith,
}
use bee_rpc_over_grpc_py.Outcome.{Result, ok, bind-eq-ok, then-eq-ok, ok_injective}
use bee_rpc_over_grpc_py.Trace.{Trace, stop, raise, next}
use bee_rpc_over_grpc_py.Varint.{Bytes}
use bee_rpc_over_grpc_py.Store.{Item, piece, marker, chunk_size}
use bee_rpc_over_grpc_py.Store.Chunks.{collect, join, join_assoc, join-empty, collect-piece}
use bee_rpc_over_grpc_py.ChunkReader.{
  Reader, flip, fill_from, filled, has_byte, at_end, require, read_rounds, read, copy_rounds, copy,
}

-- What the reader has still to hand out, and all that its hash object will have been fed.
unfoldable pub pending : Reader → Result Bytes
pending r = join (ok r.left) (collect r.chunks)

unfoldable pub whole : Reader → Result Bytes
whole r = join (ok r.fed) (collect r.chunks)

-- From `r` the bytes `out` were taken, which led to `r'`.
pub record Takes (r : Reader) (out : Bytes) (r' : Reader) : Type 0 where
  pub streams : pending r ≡ join (ok out) (pending r')
  pub hashes : whole r ≡ whole r'

pub Takes-none : (r : Reader) → Takes r [] r
Takes-none r = record { streams = sym (join-empty (pending r)); hashes = refl }

pub Takes-append :
    (r r' r'' : Reader) (out out' : Bytes)
    → Takes r out r'
    → Takes r' out' r''
    → Takes r (out ++ out') r''
Takes-append r r' r'' out out' h k = record {
  streams =
      h.streams
      ∙ ap (λ p. join (ok out) p) k.streams
      ∙ sym (join_assoc (ok out) (ok out') (pending r''));
  hashes = h.hashes ∙ k.hashes;
}

-- A byte was looked for, and none was taken.
pub record Looks (r : Reader) (more : Bool) (r' : Reader) : Type 0 where
  pub streams : pending r ≡ pending r'
  pub hashes : whole r ≡ whole r'
  pub found : more ≡ true → 0 < length r'.left

joined_chunk :
    (front c : Bytes) (t : Trace Item)
    → join (ok front) (collect (next (piece c) t)) ≡ join (ok (front ++ c)) (collect t)
joined_chunk front c t =
    ap (λ p. join (ok front) p) (collect-piece c t) ∙ sym (join_assoc (ok front) (ok c) (collect t))

with_chunks : Trace Item → Reader → Reader
with_chunks t r = record r { chunks = t }

fill_from-Looks :
    (t : Trace Item) (r r' : Reader) (more : Bool)
    → fill_from t r ≡ ok (more, r')
    → Looks (with_chunks t r) more r'
unfolding fill_from with_chunks pending whole collect
fill_from-Looks stop r r' more h =
    let e = ok_injective h in
    subst (λ q. Looks (with_chunks stop r) q.0 q.1) e
      (record { streams = refl; hashes = refl; found = λ no. cc })
fill_from-Looks (raise e) r r' more h = cc
fill_from-Looks (next (piece []) t) r r' more h =
    let rest = fill_from-Looks t r r' more h in
    record {
      streams =
          joined_chunk r.left [] t
          ∙ ap (λ front. join (ok front) (collect t)) (append-nil r.left)
          ∙ rest.streams;
      hashes =
          joined_chunk r.fed [] t
          ∙ ap (λ front. join (ok front) (collect t)) (append-nil r.fed)
          ∙ rest.hashes;
      found = rest.found;
    }
fill_from-Looks (next (marker b) t) r r' more h =
    let rest = fill_from-Looks t r r' more h in
    record { streams = rest.streams; hashes = rest.hashes; found = rest.found }
fill_from-Looks (next (piece (c ∷ cs)) t) r r' more h =
    let e = ok_injective h in
    subst (λ q. Looks (with_chunks (next (piece (c ∷ cs)) t) r) q.0 q.1) e
      (record {
        streams = joined_chunk r.left (c ∷ cs) t;
        hashes = joined_chunk r.fed (c ∷ cs) t;
        found = λ yes. omega (arith, length-append r.left (c ∷ cs));
      })

has_byte-Looks : (r r' : Reader) (more : Bool) → has_byte r ≡ ok (more, r') → Looks r more r'
unfolding has_byte with_chunks
has_byte-Looks r r' more h = go r.left refl h
  where
    go : (left : Bytes) → r.left ≡ left → filled left r ≡ ok (more, r') → Looks r more r'
    go [] e k = fill_from-Looks r.chunks r r' more k
    go (b ∷ bs) e k =
        subst (λ q. Looks r q.0 q.1) (ok_injective k)
          (record { streams = refl; hashes = refl; found = λ yes. omega (arith, ap length e) })

-- Where no byte was found, the stream is at its end.
Ended : Bool × Reader → Type 0
Ended (more, r) = more ≡ false → (r.chunks ≡ stop) × (r.left ≡ [])

fill_from-Ended :
    (t : Trace Item) (r : Reader) (q : Bool × Reader) → r.left ≡ [] → fill_from t r ≡ ok q → Ended q
unfolding fill_from Ended
fill_from-Ended stop r q none_left h = subst Ended (ok_injective h) (λ no. (refl, none_left))
fill_from-Ended (raise e) r q none_left h = cc
fill_from-Ended (next (piece []) t) r q none_left h = fill_from-Ended t r q none_left h
fill_from-Ended (next (marker b) t) r q none_left h = fill_from-Ended t r q none_left h
fill_from-Ended (next (piece (c ∷ cs)) t) r q none_left h = subst Ended (ok_injective h) (λ no. cc)

has_byte-Ended : (r : Reader) (q : Bool × Reader) → has_byte r ≡ ok q → Ended q
unfolding has_byte Ended
has_byte-Ended r q h = go r.left refl h
  where
    go : (left : Bytes) → r.left ≡ left → filled left r ≡ ok q → Ended q
    go [] e k = fill_from-Ended r.chunks r q e k
    go (b ∷ bs) e k = subst Ended (ok_injective k) (λ no. cc)

pub at_end-Takes : (r r1 : Reader) (over : Bool) → at_end r ≡ ok (over, r1) → Takes r [] r1
unfolding at_end
at_end-Takes r r1 over h =
    let ((more, r2), looked, last) = bind-eq-ok (has_byte r) _ _ h in
    let seen = has_byte-Looks r r2 more looked in
    subst (λ q. Takes r [] q.1) (ok_injective last)
      (record { streams = seen.streams ∙ sym (join-empty (pending r2)); hashes = seen.hashes })

pub at_end-finished :
    (r r1 : Reader) → at_end r ≡ ok (true, r1) → (r1.chunks ≡ stop) × (r1.left ≡ [])
unfolding at_end Ended
at_end-finished r r1 h =
    let ((more, r2), looked, last) = bind-eq-ok (has_byte r) _ _ h in
    let ended = has_byte-Ended r (more, r2) looked in go more r2 ended (ok_injective last)
  where
    go :
        (more : Bool) (r2 : Reader)
        → Ended (more, r2)
        → flip (more, r2) ≡ (true, r1)
        → (r1.chunks ≡ stop) × (r1.left ≡ [])
    go true r2 ended e = cc
    go false r2 ended e =
        subst (λ (q : Bool × Reader). (q.1.chunks ≡ stop) × (q.1.left ≡ [])) e (ended refl)

-- The first bytes of the buffer are taken.
taken_front :
    (r : Reader) (n : ℕ) (p : ℕ)
    → Takes r (take n r.left) (record r { left = drop n r.left; position = p })
unfolding pending whole
taken_front r n p = record {
  streams =
      ap (λ front. join (ok front) (collect r.chunks)) (sym (take-append-drop n r.left))
      ∙ join_assoc (ok (take n r.left)) (ok (drop n r.left)) (collect r.chunks);
  hashes = refl;
}

Takes-Looks :
    (r r1 r' : Reader) (more : Bool) (out : Bytes)
    → Looks r more r1
    → Takes r1 out r'
    → Takes r out r'
Takes-Looks r r1 r' more out h k = record {
  streams = h.streams ∙ k.streams;
  hashes = h.hashes ∙ k.hashes;
}

-- `got` has `n` bytes more than `out`, and they were taken.
pub Gets : Reader → Bytes → ℕ → Bytes → Reader → Type 0
Gets r out n got r' = (new : Bytes) × (got ≡ out ++ new) × (length new ≡ n) × Takes r new r'

Gets-step :
    (r r1 r' : Reader) (more : Bool) (out got : Bytes) (wanted n p : ℕ)
    → Looks r more r1
    → n ≤ wanted
    → Gets
        (record r1 { left = drop n r1.left; position = p })
        (out ++ take n r1.left)
        (wanted - length (take n r1.left))
        got
        r'
    → Gets r out wanted got r'
unfolding Gets
Gets-step r r1 r' more out got wanted n p looked le (new, same, size, taken) =
    let front = take n r1.left in
    (
      front ++ new,
      same ∙ append_assoc out front new,
      omega (arith, length-append front new, length-take n r1.left, size),
      Takes-Looks r r1 r' more (front ++ new) looked
          (Takes-append r1 _ r' front new (taken_front r1 n p) taken),
    )

read_rounds-Gets :
    (fuel wanted : ℕ) (out : Bytes) (r : Reader) (got : Bytes) (r' : Reader)
    → read_rounds fuel wanted out r ≡ ok (got, r')
    → Gets r out wanted got r'
unfolding read_rounds
read_rounds-Gets fuel zero out r got r' h =
    subst (λ q. Gets r out 0 q.0 q.1) (ok_injective h)
      (unfold Gets in ([], sym (append-nil out), refl, Takes-none r))
read_rounds-Gets zero (suc wanted) out r got r' h = cc
read_rounds-Gets (suc fuel) (suc wanted) out r got r' h =
    let ((more, r1), looked, h1) = bind-eq-ok (has_byte r) _ _ h in
    let (_, h2) = then-eq-ok (require more) _ _ h1 in
    Gets-step r r1 r' more out got (suc wanted) (suc wanted) r1.position
      (has_byte-Looks r r1 more looked) (omega arith) (read_rounds-Gets fuel _ _ _ got r' h2)

copy_rounds-Gets :
    (fuel wanted : ℕ) (out : Bytes) (r : Reader) (got : Bytes) (r' : Reader)
    → copy_rounds fuel wanted out r ≡ ok (got, r')
    → Gets r out wanted got r'
unfolding copy_rounds
copy_rounds-Gets fuel zero out r got r' h =
    subst (λ q. Gets r out 0 q.0 q.1) (ok_injective h)
      (unfold Gets in ([], sym (append-nil out), refl, Takes-none r))
copy_rounds-Gets zero (suc wanted) out r got r' h = cc
copy_rounds-Gets (suc fuel) (suc wanted) out r got r' h =
    let ((more, r1), looked, h1) = bind-eq-ok (has_byte r) _ _ h in
    let (_, h2) = then-eq-ok (require more) _ _ h1 in
    Gets-step r r1 r' more out got (suc wanted) (min (suc wanted) chunk_size) _
      (has_byte-Looks r r1 more looked) (omega arith) (copy_rounds-Gets fuel _ _ _ got r' h2)

-- `read` and `copy` hand out just as many bytes as they are asked for, the next ones of the stream.
pub read-Takes :
    (n : ℕ) (r : Reader) (out : Bytes) (r' : Reader)
    → read n r ≡ ok (out, r')
    → (length out ≡ n) × Takes r out r'
unfolding read Gets
read-Takes n r out r' h =
    let ((got, r1), rounds, last) = bind-eq-ok (read_rounds n n [] r) _ _ h in
    let (new, same, size, taken) = read_rounds-Gets n n [] r got r1 rounds in
    subst (λ q. (length q.0 ≡ n) × Takes r q.0 q.1) (ok_injective last)
      (rw same
        (size, unfold pending whole in record { streams = taken.streams; hashes = taken.hashes }))

pub copy-Takes :
    (n : ℕ) (r : Reader) (out : Bytes) (r' : Reader)
    → copy n r ≡ ok (out, r')
    → (length out ≡ n) × Takes r out r'
unfolding copy Gets
copy-Takes n r out r' h =
    let (new, same, size, taken) = copy_rounds-Gets n n [] r out r' h in rw same (size, taken)
