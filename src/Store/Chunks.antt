-- ===== src/Store/Chunks.antt =====
-- Reading a file by chunks gives its content.
use bee_rpc_over_grpc_py.Prelude.{
  ℕ, zero, suc, ◌≤◌, ◌≡◌, refl, sym, ap, ◌∙◌, [], ◌∷◌, ◌++◌, append_assoc, length, take, drop,
  take-append-drop, length-drop, arith,
}
use bee_rpc_over_grpc_py.Outcome.{Result, ok, err, ◌>>=◌}
use bee_rpc_over_grpc_py.Trace.{Trace, stop, raise, next, ◌then_from◌}
use bee_rpc_over_grpc_py.Varint.{Bytes}
use bee_rpc_over_grpc_py.Store.{chunk_size, chunk_loop, Item, piece, marker, pieces}

-- The bytes of a generator of items, the markers left out; the exception if it raises.
unfoldable pub collect : Trace Item → Result Bytes
collect stop = ok []
collect (raise e) = err e
collect (next (piece c) t) = collect t >>= λ bs. ok (c ++ bs)
collect (next (marker b) t) = collect t

-- Joining two results that are byte strings.
abbrev pub join : Result Bytes → Result Bytes → Result Bytes
join a b = a >>= λ x. b >>= λ y. ok (x ++ y)

pub join_assoc : (a b c : Result Bytes) → join (join a b) c ≡ join a (join b c)
join_assoc (err e) b c = refl
join_assoc (ok x) (err e) c = refl
join_assoc (ok x) (ok y) (err e) = refl
join_assoc (ok x) (ok y) (ok z) = ap ok (append_assoc x y z)

pub join-empty : (a : Result Bytes) → join (ok []) a ≡ a
join-empty (ok x) = refl
join-empty (err e) = refl

pub collect-piece :
    (c : Bytes) (t : Trace Item) → collect (next (piece c) t) ≡ join (ok c) (collect t)
unfolding collect
collect-piece c t = refl

pub collect-then_from : (t u : Trace Item) → collect (t then_from u) ≡ join (collect t) (collect u)
unfolding collect
collect-then_from stop u = sym (join-empty (collect u))
collect-then_from (raise e) u = refl
collect-then_from (next (piece c) t) u =
    ap (λ r. join (ok c) r) (collect-then_from t u)
    ∙ sym (join_assoc (ok c) (collect t) (collect u))
collect-then_from (next (marker b) t) u = collect-then_from t u

chunk_rest :
    (b : ℕ) (bs : Bytes) (fuel : ℕ)
    → length (b ∷ bs) ≤ suc fuel
    → length (drop chunk_size (b ∷ bs)) ≤ fuel
chunk_rest b bs fuel h = omega (arith, length-drop chunk_size (b ∷ bs))

collect-chunk_loop :
    (fuel : ℕ) (content : Bytes)
    → length content ≤ fuel
    → collect (pieces (chunk_loop fuel content)) ≡ ok content
unfolding chunk_loop
collect-chunk_loop fuel [] h = unfold collect in refl
collect-chunk_loop zero (b ∷ bs) h = absurd (omega arith)
collect-chunk_loop (suc fuel) (b ∷ bs) h =
    collect-piece (take chunk_size (b ∷ bs)) _
    ∙ rw (collect-chunk_loop fuel (drop chunk_size (b ∷ bs)) (chunk_rest b bs fuel h))
        (ap ok (take-append-drop chunk_size (b ∷ bs)))

-- The chunks of a file are its content: nothing is lost, repeated or reordered.
pub collect-read_file :
    (content : Bytes) → collect (pieces (chunk_loop (length content) content)) ≡ ok content
collect-read_file content = collect-chunk_loop (length content) content (omega arith)
