-- ===== src/Parser/Nested.antt =====
-- What the iterator makes of a well-formed stream with blocks in blocks.
use bee_rpc_over_grpc_py.Prelude.{
  ℕ, zero, suc, ◌+◌, ◌<◌, ◌≡◌, refl, sym, ap, ◌∙◌, Bool, true, false, none, some, List, [], ◌∷◌,
  ◌++◌, append-nil, append_assoc, length, length-append, contains, bytes_eq_refl, leb, All,
  if◌then◌else◌, arith,
}
use bee_rpc_over_grpc_py.Outcome.{ok}
use bee_rpc_over_grpc_py.Varint.{Bytes}
use bee_rpc_over_grpc_py.Wire.{Block, Buffer, has, is_set, nonempty}
use bee_rpc_over_grpc_py.Pointer.{get_hash_from_block}
use bee_rpc_over_grpc_py.Skip.Items.{Items, done, piece, nested, flatten}
use bee_rpc_over_grpc_py.Parser.{
  max_block_nesting, Effects, Run, ends, after_yield, note_signal, signal_block_buffer_stream,
  Frame, resume, on_block, on_buffer, parser_iterator,
}

-- A chunk that does not end its part.
abbrev pub IsChunk : Buffer → Type 0
IsChunk b = (b.block ≡ none) × (has b.chunk ≡ true) × (is_set b.separator ≡ false)

module _ (hash_type : Bytes) (exists : Bytes → Bool) where
  -- `m` is a marker of the block `id`.
  abbrev pub Marks : Buffer → Bytes → Type 0
  Marks m id =
      (block : Block) × (m.block ≡ some block)
      × (get_hash_from_block hash_type block false true ≡ some id)
      × (nonempty id ≡ true)

  -- The body of a block inside the open blocks: chunks, and blocks that are not open yet, with room
  -- for one more level each.
  abbrev pub IsBody : List Bytes → Items → Type 0
  IsBody blocks done = Unit
  IsBody blocks (piece b rest) = IsChunk b × IsBody blocks rest
  IsBody blocks (nested m body rest) =
      (id : Bytes) × Marks m id
      × (contains blocks id ≡ false)
      × (length blocks < max_block_nesting)
      × IsBody (id ∷ blocks) body
      × IsBody blocks rest

  on_buffer-marker :
      (loop : Frame hash_type exists) (inside : Bool) (blocks : List Bytes) (m : Buffer)
      (input : List Buffer) (fx : Effects) (id : Bytes)
      → Marks m id
      → on_buffer hash_type exists loop inside blocks m input fx m.block
        ≡ on_block hash_type exists loop inside blocks id m input fx
  on_buffer-marker loop inside blocks m input fx [] h = cc (h.3)
  on_buffer-marker loop inside blocks m input fx (c ∷ cs) h = simp (h.1, h.2)

  contains-here : (id : Bytes) (ids : List Bytes) → contains (id ∷ ids) id ≡ true
  unfolding contains
  contains-here id ids = rw (bytes_eq_refl id)

  pub iterate-chunk :
      (fuel : ℕ) (inside : Bool) (blocks : List Bytes) (b : Buffer) (input : List Buffer)
      (fx : Effects)
      → IsChunk b
      → parser_iterator hash_type exists (suc fuel) inside blocks (b ∷ input) fx
        ≡ after_yield (b ∷ []) (
            parser_iterator hash_type exists fuel inside blocks input
              (note_signal hash_type exists b fx))
  unfolding parser_iterator
  iterate-chunk fuel inside blocks b input fx h = simp (h.0, h.1, h.2)

  iterate-close :
      (fuel : ℕ) (inside : Bool) (id : Bytes) (outer : List Bytes) (m : Buffer)
      (input : List Buffer) (fx : Effects)
      → Marks m id
      → parser_iterator hash_type exists (suc fuel) inside (id ∷ outer) (m ∷ input) fx
        ≡ after_yield
            (if nonempty outer then m ∷ [] else [])
            (ends outer input (note_signal hash_type exists m fx))
  unfolding parser_iterator
  iterate-close fuel inside id outer m input fx h =
      on_buffer-marker (parser_iterator hash_type exists fuel) inside (id ∷ outer) m input
        (note_signal hash_type exists m fx) id h
      ∙ simp (contains-here id outer, bytes_eq_refl id)

  -- What a start marker leads to: the body in a frame of its own, and then what follows it.
  abbrev opened : ℕ → Bytes → List Bytes → Buffer → List Buffer → Effects → Run
  opened fuel id blocks m input fx =
      parser_iterator hash_type exists fuel true (id ∷ blocks) input (
        if exists id
        then signal_block_buffer_stream hash_type exists id (note_signal hash_type exists m fx)
        else note_signal hash_type exists m fx)

  iterate-open :
      (fuel : ℕ) (inside : Bool) (id : Bytes) (blocks : List Bytes) (m : Buffer)
      (input : List Buffer) (fx : Effects)
      → Marks m id
      → contains blocks id ≡ false
      → length blocks < max_block_nesting
      → parser_iterator hash_type exists (suc fuel) inside blocks (m ∷ input) fx
        ≡ after_yield (m ∷ (opened fuel id blocks m input fx).yielded) (
            resume hash_type exists
              (parser_iterator hash_type exists fuel)
              inside
              m
              (opened fuel id blocks m input fx).ending
              (opened fuel id blocks m input fx).effects)
  unfolding parser_iterator
  iterate-open fuel inside id blocks m input fx h new room =
      on_buffer-marker (parser_iterator hash_type exists fuel) inside blocks m input
        (note_signal hash_type exists m fx) id h
      ∙ simp (new, leb-lt (length blocks) room)
    where
      leb-lt : (n : ℕ) → n < max_block_nesting → leb max_block_nesting n ≡ false
      leb-lt n lt = ground arith

  abbrev last_marker : List Bytes → Buffer → List Buffer
  last_marker outer m = if nonempty outer then m ∷ [] else []

  -- The frame of the block `id` reads its body and its end marker, and nothing behind it.
  pub Closes : List Buffer → List Bytes → List Buffer → Run → Type 0
  Closes out outer rest r = (r.yielded ≡ out) × (r.ending ≡ ok (outer, rest))

  Closes-yield :
      (bs out : List Buffer) (outer : List Bytes) (rest : List Buffer) (r : Run)
      → Closes out outer rest r
      → Closes (bs ++ out) outer rest (after_yield bs r)
  unfolding Closes
  Closes-yield bs out outer rest r h = (ap (λ t. bs ++ t) h.0, h.1)

  -- A whole inner block, and then what the outer frame makes of the buffers behind it.
  iterate-block :
      (fuel : ℕ) (id : Bytes) (blocks : List Bytes) (m : Buffer) (input later : List Buffer)
      (inner out : List Buffer) (outer : List Bytes) (rest : List Buffer) (fx : Effects)
      → Marks m id
      → contains blocks id ≡ false
      → length blocks < max_block_nesting
      → Closes inner blocks later (opened fuel id blocks m input fx)
      → ((fx' : Effects)
          → Closes out outer rest (parser_iterator hash_type exists fuel true blocks later fx'))
      → Closes
          ((m ∷ inner) ++ out)
          outer
          rest
          (parser_iterator hash_type exists (suc fuel) true blocks (m ∷ input) fx)
  unfolding Closes
  iterate-block fuel id blocks m input later inner out outer rest fx h new room nested_run next =
      rw (iterate-open fuel true id blocks m input fx h new room) (
        rw (nested_run.0, nested_run.1)
          (Closes-yield (m ∷ inner) out outer rest
            (parser_iterator hash_type exists fuel true blocks later
              (opened fuel id blocks m input fx).effects)
            (next (opened fuel id blocks m input fx).effects)))

  iterate-body :
      (items : Items) (fuel : ℕ) (id : Bytes) (outer : List Bytes) (m : Buffer) (rest : List Buffer)
      (fx : Effects)
      → Marks m id
      → IsBody (id ∷ outer) items
      → length (flatten items) < fuel
      → Closes
          (flatten items ++ last_marker outer m)
          outer
          rest
          (parser_iterator hash_type exists fuel true (id ∷ outer) (flatten items ++ (m ∷ rest)) fx)
  unfolding flatten
  iterate-body done zero id outer m rest fx h b lt = elim lt [ ]
  iterate-body done (suc fuel) id outer m rest fx h b lt =
      rw (iterate-close fuel true id outer m rest fx h)
        (unfold Closes in (append-nil (last_marker outer m), refl))
  iterate-body (piece p items) zero id outer m rest fx h b lt = elim lt [ ]
  iterate-body (piece p items) (suc fuel) id outer m rest fx h b lt =
      rw (iterate-chunk fuel true (id ∷ outer) p (flatten items ++ (m ∷ rest)) fx b.0) (
        Closes-yield (p ∷ []) _ outer rest _
          (iterate-body items fuel id outer m rest _ h b.1 (omega arith)))
  iterate-body (nested n body items) zero id outer m rest fx h b lt = elim lt [ ]
  iterate-body (nested n body items) (suc fuel) id outer m rest fx h b lt =
      let later = flatten items ++ (m ∷ rest) in
      let input = append_assoc (flatten body) (n ∷ flatten items) (m ∷ rest) in
      let output =
        append_assoc (flatten body) (n ∷ []) (flatten items ++ last_marker outer m)
        ∙ sym (append_assoc (flatten body) (n ∷ flatten items) (last_marker outer m)) in
      let small = length-append (flatten body) (n ∷ flatten items) in
      rw (input, sym output)
        (iterate-block fuel b.0 (id ∷ outer) n (flatten body ++ (n ∷ later)) later
          (flatten body ++ (n ∷ [])) (flatten items ++ last_marker outer m) outer rest fx b.1 b.2
          b.3 (iterate-body body fuel b.0 (id ∷ outer) n later _ b.1 b.4 (omega (arith, small)))
          (λ fx'. iterate-body items fuel id outer m rest fx' h b.5 (omega (arith, small))))

  -- In the outermost frame, chunks that do not end their part, and then a whole block whose markers
  -- carry neither a chunk nor a head: the frame yields the chunks, the start marker and the body of
  -- the block, withholds the end marker, and ends right there, so that everything behind the block is
  -- left in the stream. The fuel is at least one more than the buffers before the end marker.
  pub parser_iterator-block :
      (before : List Buffer) (body : Items) (fuel : ℕ) (id : Bytes) (m e : Buffer)
      (rest : List Buffer) (fx : Effects)
      → All IsChunk before
      → Marks m id
      → has m.chunk ≡ false
      → has m.head ≡ false
      → IsBody (id ∷ []) body
      → Marks e id
      → length before + length (flatten body) + 1 < fuel
      → Closes (before ++ (m ∷ flatten body)) [] rest (
          parser_iterator hash_type exists fuel false []
            (before ++ (m ∷ (flatten body ++ (e ∷ rest))))
            fx)
  unfolding contains Closes
  parser_iterator-block before body zero id m e rest fx cs h no_chunk no_head b h' lt = elim lt [ ]
  parser_iterator-block [] body (suc fuel) id m e rest fx cs h no_chunk no_head b h' lt =
      let opened_fx =
        if exists id
        then signal_block_buffer_stream hash_type exists id (note_signal hash_type exists m fx)
        else note_signal hash_type exists m fx in
      let inner = iterate-body body fuel id [] e rest opened_fx h' b (omega arith) in
      rw (iterate-open fuel false id [] m (flatten body ++ (e ∷ rest)) fx h refl (omega arith))
        (rw (inner.0, inner.1) (simp (no_chunk, no_head, append-nil (flatten body)) (refl, refl)))
  parser_iterator-block (c ∷ before) body (suc fuel) id m e rest fx cs h no_chunk no_head b h' lt =
      let noted = note_signal hash_type exists c fx in
      rw (iterate-chunk fuel false [] c (before ++ (m ∷ (flatten body ++ (e ∷ rest)))) fx cs.0) (
        Closes-yield (c ∷ []) (before ++ (m ∷ flatten body)) [] rest
          (parser_iterator hash_type exists fuel false []
            (before ++ (m ∷ (flatten body ++ (e ∷ rest)))) noted)
          (parser_iterator-block before body fuel id m e rest noted cs.1 h no_chunk no_head b h'
            (omega arith)))
