-- ===== src/Receiving/Files.antt =====
-- How a received stream becomes a file or a directory: `save_to_dir` inside `parse_from_buffer`
-- (src/bee_rpc/client.py). Each part is read from an iterator of its own over the same stream; where a
-- part gives its iterator up, the stream is as it was at the last yield. The temporary directory and the
-- file that a single part is moved to stand as what they hold. `except StopIteration` catches nothing:
-- no call in the loop lets that exception out.
use bee_rpc_over_grpc_py.Prelude.{
  ℕ, zero, suc, ◌-◌, false, none, some, List, [], ◌∷◌, ◌++◌, length, if◌then◌else◌,
}
use bee_rpc_over_grpc_py.Outcome.{Result, ok, err, recursion_error}
use bee_rpc_over_grpc_py.Trace.{size}
use bee_rpc_over_grpc_py.Varint.{Bytes}
use bee_rpc_over_grpc_py.Wire.{Block, Buffer}
use bee_rpc_over_grpc_py.Environment.{Environment}
use bee_rpc_over_grpc_py.Store.{Json, num, Directory, Node, dir, Store, find_part}
use bee_rpc_over_grpc_py.Driver.File.{generate_wbp_file}
use bee_rpc_over_grpc_py.Parser.Lazy.{Feed, feed_iterator, trace_of, rest_over, rest_at}
use bee_rpc_over_grpc_py.Step.{Step, pure, ◌>>=◌}
use bee_rpc_over_grpc_py.Saving.{
  Progress, PartList, file_node, with_wbp, save_chunks_to_file, save_chunks_to_block,
}

-- The stream behind a part.
abbrev pub rest_after : List Buffer → Feed → Progress → List Buffer
rest_after input f p =
    if p.exhausted then rest_over f else rest_at (size (trace_of f) - size p.input) input f

module _ (env : Environment) (serialize : Block → Bytes) (wbp_fuel : ℕ) where
  abbrev pub feed_of : List Buffer → Feed
  feed_of input = feed_iterator env.hash_type (suc (length input)) false [] input

  -- The progress at the beginning of a part.
  abbrev pub at_part : ℕ → List Json → List Buffer → Progress
  at_part i entries input = record {
    input = trace_of (feed_of input);
    exhausted = false;
    hashers = [];
    entries = entries ++ (num i ∷ []);
  }

  unfoldable pub save_parts :
      ℕ → ℕ → PartList → List Json → List Buffer → Step (PartList × (List Json × List Buffer))
  unfolding feed_iterator save_chunks_to_file save_chunks_to_block rest_at
  save_parts zero i parts entries input = pure (err recursion_error)
  save_parts (suc rounds) i parts entries input = do
    part ←
        save_chunks_to_file (save_chunks_to_block env serialize wbp_fuel (suc (length input))) []
          (at_part i entries input)
    let more = parts ++ ((i, part.content) ∷ [])
    let rest = rest_after input (feed_of input) part.progress
    let later = save_parts rounds (suc i) more part.progress.entries rest
    if part.whole then pure (ok (more, (part.progress.entries, rest))) else later

  -- A single part is moved to a file of its own; more parts stay in their directory.
  abbrev pub saved_node : PartList → List Json → Store → Result Node
  saved_node parts [] store = file_node env serialize wbp_fuel (find_part parts 1)
  saved_node parts (e ∷ []) store = file_node env serialize wbp_fuel (find_part parts 1)
  saved_node parts (e ∷ e' ∷ es) store =
      let d : Directory = record { metadata = some (e ∷ e' ∷ es); parts = parts; wbp = none } in
      if env.skip_wbp_generation
      then ok (dir d)
      else with_wbp env serialize wbp_fuel d
          (generate_wbp_file serialize env.hash_type store wbp_fuel d none)

  -- What stands at the path that is returned, and the rest of the stream.
  unfoldable pub save_to_dir : List Buffer → Step (Node × List Buffer)
  unfolding save_parts find_part generate_wbp_file
  save_to_dir input = do
    (parts, (entries, rest)) ← save_parts (suc (length input)) 1 [] [] input
    node ← λ store. (store, saved_node parts entries store)
    pure (ok (node, rest))
