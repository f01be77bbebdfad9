-- ===== src/BeeFile/Runs.antt =====
-- Concrete runs, and the theorems at concrete inputs. The encoding here is that of buffers which
-- hold a chunk and nothing else: the chunk itself.
use bee_rpc_over_grpc_py.Prelude.{◌≡◌, refl, [], ◌∷◌, Option, some, arith}
use bee_rpc_over_grpc_py.Outcome.{value_error}
use bee_rpc_over_grpc_py.Trace.{raise, ◌then_from◌}
use bee_rpc_over_grpc_py.Varint.{Bytes}
use bee_rpc_over_grpc_py.Wire.{Buffer, empty_buffer, chunk_of}
use bee_rpc_over_grpc_py.BeeFile.{write_to_file, read_bee_file}
use bee_rpc_over_grpc_py.BeeFile.RoundTrip.{
  yields, Fits, read_bee_file-write_to_file, read_bee_file_cut,
}

abbrev chunk_only : Buffer → Bytes
chunk_only b = chunk_of b.chunk

abbrev chunk_back : Bytes → Option Buffer
chunk_back content = some (record empty_buffer { chunk = some content })

abbrev first : Buffer
first = record empty_buffer { chunk = some (7 ∷ 8 ∷ []) }

abbrev second : Buffer
second = record empty_buffer { chunk = some (9 ∷ []) }

first_bytes : (write_to_file chunk_only (yields (first ∷ []))).0 ≡ 0 ∷ 0 ∷ 0 ∷ 2 ∷ 7 ∷ 8 ∷ []
unfolding write_to_file
first_bytes = refl

first-Fits : Fits chunk_only chunk_back first
first-Fits = (omega arith, refl)

second-Fits : Fits chunk_only chunk_back second
second-Fits = (omega arith, refl)

read_bee_file-write_to_file_example :
    read_bee_file chunk_back (write_to_file chunk_only (yields (first ∷ second ∷ []))).0
    ≡ yields (first ∷ second ∷ [])
read_bee_file-write_to_file_example =
    read_bee_file-write_to_file chunk_only chunk_back (first ∷ second ∷ [])
      (first-Fits, (second-Fits, tt))

read_bee_file_cut_example :
    read_bee_file chunk_back (0 ∷ 0 ∷ 0 ∷ 1 ∷ 9 ∷ 0 ∷ 0 ∷ 0 ∷ 2 ∷ 7 ∷ [])
    ≡ (yields (second ∷ []) then_from raise value_error)
read_bee_file_cut_example =
    read_bee_file_cut chunk_only chunk_back (second ∷ []) first (0 ∷ 0 ∷ 0 ∷ 2 ∷ 7 ∷ []) (8 ∷ [])
      (second-Fits, tt) first-Fits (λ e. cc) (λ e. cc) refl
