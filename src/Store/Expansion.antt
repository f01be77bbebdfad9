-- ===== src/Store/Expansion.antt =====
-- What `get_expanded_block_length` measures is what `read_block` emits.
use bee_rpc_over_grpc_py.Prelude.{
  ℕ, zero, suc, ◌+◌, ◌≡◌, refl, Bool, true, Option, none, some, List, [], ◌∷◌, ◌++◌, length,
  length-append, contains, arith, Bool-cases, inl, inr,
}
use bee_rpc_over_grpc_py.Outcome.{Result, ok, err, ◌>>=◌}
use bee_rpc_over_grpc_py.Trace.{Trace, ◌then_from◌}
use bee_rpc_over_grpc_py.Varint.{Bytes}
use bee_rpc_over_grpc_py.Environment.{Environment}
use bee_rpc_over_grpc_py.Store.{
  Json, num, text, array, other, Directory, Node, file, dir, Store, find_node, find_part,
  read_file_by_chunks, Item, pieces, first_item, read_reference, read_entry, read_entries,
  read_directory, read_node, read_block, verify_single_file_block,
}
use bee_rpc_over_grpc_py.Store.Chunks.{collect, collect-then_from, collect-read_file}
use bee_rpc_over_grpc_py.Store.Sizes.{
  part_size, reference_size, entry_size, entries_size, directory_size, node_size, expanded_length,
  get_expanded_block_length,
}

-- Every single-file block holds the bytes that its id names.
abbrev pub IsIntact : Environment → Store → Type 0
IsIntact env store =
    (id content : Bytes)
    → find_node store id ≡ some (file content)
    → verify_single_file_block env store content id ≡ true

-- The reader `t` emits `n` bytes and ends without an exception.
abbrev pub Emits : Trace Item → ℕ → Type 0
Emits t n = (bs : Bytes) × (collect t ≡ ok bs) × (length bs ≡ n)

Emits-then_from :
    (t u : Trace Item) (n m : ℕ) → Emits t n → Emits u m → Emits (t then_from u) (n + m)
Emits-then_from t u n m (xs, p, k) (ys, q, l) =
    (xs ++ ys, rw (collect-then_from t u, p, q), omega (arith, length-append xs ys))

add-eq-ok :
    (a b : Result ℕ) (n : ℕ)
    → (a >>= λ x. b >>= λ y. ok (x + y)) ≡ ok n
    → (x : ℕ) × (y : ℕ) × (a ≡ ok x) × (b ≡ ok y) × (n ≡ x + y)
add-eq-ok (ok x) (ok y) n e = (x, y, refl, refl, cc)
add-eq-ok (ok x) (err z) n e = cc
add-eq-ok (err z) b n e = cc

module _ (env : Environment) (store : Store) where
  -- The measure `size` is right for the reader `rec`.
  abbrev Measures : (Bytes → Result ℕ) → (Bytes → Bool → ℕ → Trace Item) → Type 0
  Measures size rec = (id : Bytes) (n depth : ℕ) → size id ≡ ok n → Emits (rec id true depth) n

  module _ (size : Bytes → Result ℕ) (rec : Bytes → Bool → ℕ → Trace Item)
      (m : Measures size rec) where
    part-Emits :
        (o : Option Bytes) (n : ℕ) → part_size o ≡ ok n → Emits (pieces (read_file_by_chunks o)) n
    part-Emits none n e = cc
    part-Emits (some c) n e = (c, collect-read_file c, cc)

    reference-Emits :
        (depth n : ℕ) (r : Result Json) (ps : Result (List ℕ))
        → reference_size size r ≡ ok n
        → Emits (read_reference env store rec true depth r ps) n
    reference-Emits depth n (ok (text id)) ps e = m id n 1 e
    reference-Emits depth n (ok (num k)) ps e = cc
    reference-Emits depth n (ok (array xs)) ps e = cc
    reference-Emits depth n (ok other) ps e = cc
    reference-Emits depth n (err x) ps e = cc

    entry-Emits :
        (d : Directory) (depth n : ℕ) (e : Json)
        → entry_size size d e ≡ ok n
        → Emits (read_entry env store rec d true depth e) n
    entry-Emits d depth n (num k) h = part-Emits (find_part d.parts k) n h
    entry-Emits d depth n (text t) h = reference-Emits depth n (first_item (text t)) _ h
    entry-Emits d depth n (array xs) h = reference-Emits depth n (first_item (array xs)) _ h
    entry-Emits d depth n other h = reference-Emits depth n (first_item other) _ h

    entries-Emits :
        (d : Directory) (depth n : ℕ) (es : List Json)
        → entries_size size d es ≡ ok n
        → Emits (read_entries env store rec d true depth es) n
    unfolding entries_size read_entries
    entries-Emits d depth n [] h = ([], unfold collect in refl, cc)
    entries-Emits d depth n (e ∷ es) h =
        let (x, y, p, q, r) = add-eq-ok (entry_size size d e) (entries_size size d es) n h in
        rw r (
          Emits-then_from (read_entry env store rec d true depth e)
            (read_entries env store rec d true depth es) x y (entry-Emits d depth x e p)
            (entries-Emits d depth y es q))

    directory-Emits :
        (d : Directory) (depth n : ℕ) (o : Option (List Json))
        → directory_size size d o ≡ ok n
        → Emits (read_directory env store rec d true depth o) n
    directory-Emits d depth n none h = cc
    directory-Emits d depth n (some es) h = entries-Emits d depth n es h

    node-Emits :
        (id : Bytes) (depth n : ℕ) (o : Option Node)
        → ((c : Bytes) → o ≡ some (file c) → verify_single_file_block env store c id ≡ true)
        → node_size size o ≡ ok n
        → Emits (read_node env store rec id true depth o) n
    node-Emits id depth n none v h = cc
    node-Emits id depth n (some (file c)) v h = rw (v c refl) (part-Emits (some c) n h)
    node-Emits id depth n (some (dir d)) v h = directory-Emits d depth n d.metadata h

  expanded-Measures :
      (fuel : ℕ) (seen : List Bytes)
      → IsIntact env store
      → Measures (expanded_length store fuel seen) (read_block env store fuel)
  unfolding expanded_length read_block
  expanded-Measures zero seen intact id n depth h = cc
  expanded-Measures (suc fuel) seen intact id n depth h = elim (Bool-cases (contains seen id)) [
    | inl loops ↦ cc (rw loops at h)
    | inr new ↦
        node-Emits (expanded_length store fuel (id ∷ seen)) (read_block env store fuel)
          (expanded-Measures fuel (id ∷ seen) intact) id depth n (find_node store id)
          (λ c e. intact id c e) (rw new at h)
  ]

  -- In a registry whose single files are intact, a block that `get_expanded_block_length` measures
  -- is one that `read_block` reads to its end, flat, whatever its depth of nesting, and it emits just
  -- as many bytes as were measured. The fuel of the reader is one more than the registry has names.
  pub get_expanded_block_length-read_block :
      (id : Bytes) (n depth : ℕ)
      → IsIntact env store
      → get_expanded_block_length store id ≡ ok n
      → Emits (read_block env store (suc (length store)) id true depth) n
  unfolding get_expanded_block_length
  get_expanded_block_length-read_block id n depth intact h =
      expanded-Measures (suc (length store)) [] intact id n depth h
