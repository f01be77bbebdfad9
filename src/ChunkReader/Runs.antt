-- ===== src/ChunkReader/Runs.antt =====
-- Concrete runs, and the theorems at concrete inputs.
use bee_rpc_over_grpc_py.Prelude.{ℕ, ◌≡◌, ◌≤◌, ◌<◌, ◌^◌, refl, [], ◌∷◌, length, arith}
use bee_rpc_over_grpc_py.Outcome.{err, split_error}
use bee_rpc_over_grpc_py.Trace.{stop, next}
use bee_rpc_over_grpc_py.Varint.{varint_loop}
use bee_rpc_over_grpc_py.Store.{piece}
use bee_rpc_over_grpc_py.ChunkReader.{Reader, new_reader, varint}
use bee_rpc_over_grpc_py.ChunkReader.Varints.{varint_bounds}

-- 300, and one more byte, in two chunks.
abbrev reader : Reader
reader = new_reader (next (piece (172 ∷ [])) (next (piece (2 ∷ 9 ∷ [])) stop))

cut_short : varint (new_reader (next (piece (172 ∷ [])) stop)) ≡ err split_error
unfolding varint
cut_short = refl

varint_bounds_example :
    (length {A = ℕ} (172 ∷ 2 ∷ []) ≤ 10) × (300 < 2 ^ 70) × (varint_loop (172 ∷ 2 ∷ []) 0 0 ≡ 300)
unfolding varint
varint_bounds_example =
    varint_bounds reader (172 ∷ 2 ∷ []) 300
      (record reader { chunks = stop; fed = 172 ∷ 2 ∷ 9 ∷ []; left = 9 ∷ []; position = 2 }) refl
      (omega arith, (omega arith, tt))
