-- ===== src/Driver/Rewriting.antt =====
-- `set_varint_value` on a buffer of parts and blocks.
use bee_rpc_over_grpc_py.Prelude.{
  ℕ, ◌+◌, ◌-◌, ◌≤◌, ◌<◌, ◌≡◌, true, false, List, [], ◌∷◌, ◌++◌, length, length-append, ltb, leb,
  ◌&&◌, arith,
}
use bee_rpc_over_grpc_py.Outcome.{ok_injective, Result, ok, bind-eq-ok, ◌>>=◌}
use bee_rpc_over_grpc_py.Varint.{Bytes, encode_bytes}
use bee_rpc_over_grpc_py.Varint.Rewrite.{IsVarint, IsVarint-nonempty, set_varint-IsVarint}
use bee_rpc_over_grpc_py.Store.{Store, find_node}
use bee_rpc_over_grpc_py.Store.Sizes.{getsize}
use bee_rpc_over_grpc_py.Driver.{Piece, bytes, path, set_varint_loop, set_varint_value}

inside_test : (a p b : ℕ) → a ≤ p → p < b → (leb a p && ltb p b) ≡ true
inside_test a p b h k = ground arith

outside_test : (a p b : ℕ) → b ≤ p → (leb a p && ltb p b) ≡ false
outside_test a p b h = ground arith

module _ (store : Store) where
  -- How many bytes of the expanded stream the pieces stand for.
  unfoldable pub buffer_size : List Piece → Result ℕ
  unfolding getsize find_node
  buffer_size [] = ok 0
  buffer_size (bytes b ∷ rest) = do n ← buffer_size rest; ok (length b + n)
  buffer_size (path id ∷ rest) = do
    size ← getsize store (find_node store id)
    n ← buffer_size rest
    ok (size + n)

  set_varint_loop-at :
      (before after : List Piece) (front rest old : Bytes) (offset n varint_pos new : ℕ)
      → IsVarint old
      → buffer_size before ≡ ok n
      → varint_pos ≡ offset + n + length front
      → set_varint_loop store offset varint_pos
          (before ++ (bytes (front ++ (old ++ rest)) ∷ after))
          new
        ≡ ok (before ++ (bytes (front ++ (encode_bytes new ++ rest)) ∷ after))
  unfolding set_varint_loop buffer_size
  set_varint_loop-at [] after front rest old offset n varint_pos new v h at =
      let start = ok_injective h in
      let fits = length-append front (old ++ rest) in
      let more = length-append old rest in
      let some_byte = IsVarint-nonempty v in
      let relative : varint_pos - offset ≡ length front = omega (arith, start) in
      rw (
        inside_test offset varint_pos (offset + length (front ++ (old ++ rest)))
            (omega (arith, start)) (omega (arith, start, fits, more, some_byte)),
        relative,
        set_varint-IsVarint front rest new v,
      )
  set_varint_loop-at (bytes b ∷ before) after front rest old offset n varint_pos new v h at =
      let (m, sized, total) = bind-eq-ok (buffer_size before) _ n h in
      let sum = ok_injective total in
      rw (
        outside_test offset varint_pos (offset + length b) (omega (arith, sum)),
        set_varint_loop-at before after front rest old (offset + length b) m varint_pos new v sized
            (omega (arith, sum)),
      )
  set_varint_loop-at (path id ∷ before) after front rest old offset n varint_pos new v h at =
      let (size, measured, h') = bind-eq-ok (getsize store (find_node store id)) _ n h in
      let (m, sized, total) = bind-eq-ok (buffer_size before) _ n h' in
      let sum = ok_injective total in
      rw (
        measured,
        set_varint_loop-at before after front rest old (offset + size) m varint_pos new v sized
            (omega (arith, sum)),
      )

  -- Where the position is that of a varint in a part, also of one longer than its value needs, behind
  -- pieces whose expansions can be measured, `set_varint_value` replaces this varint by the encoding of
  -- the new value and keeps all other bytes of the part and all other pieces.
  pub set_varint_value-encode_bytes :
      (before after : List Piece) (front rest old : Bytes) (n new : ℕ)
      → IsVarint old
      → buffer_size before ≡ ok n
      → set_varint_value store
          (n + length front)
          (before ++ (bytes (front ++ (old ++ rest)) ∷ after))
          new
        ≡ ok (before ++ (bytes (front ++ (encode_bytes new ++ rest)) ∷ after))
  unfolding set_varint_value
  set_varint_value-encode_bytes before after front rest old n new v h =
      set_varint_loop-at before after front rest old 0 n (n + length front) new v h (omega arith)
