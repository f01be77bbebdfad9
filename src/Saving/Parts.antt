-- ===== src/Saving/Parts.antt =====
-- The files of a block that is being saved, and the bytes that the hash objects are fed.
use mathlib.Core.Path.{subst}
use bee_rpc_over_grpc_py.Prelude.{
  ℕ, zero, suc, ◌≤◌, ◌≡◌, refl, sym, ap, ◌∙◌, Bool, true, false, Option, none, some, List, [], ◌∷◌,
  ◌++◌, append-nil, append_assoc, ◌==◌, arith, Bool-cases, inl, inr, if◌then◌else◌,
}
use bee_rpc_over_grpc_py.Outcome.{ok}
use bee_rpc_over_grpc_py.Trace.{Trace, stop, raise, next}
use bee_rpc_over_grpc_py.Varint.{Bytes}
use bee_rpc_over_grpc_py.Wire.{Block, Buffer, chunk_of}
use bee_rpc_over_grpc_py.Environment.{Environment}
use bee_rpc_over_grpc_py.Store.{Json, num, text, array, nil, cons, numbers_json, Store, find_part}
use bee_rpc_over_grpc_py.Step.{Step}
use bee_rpc_over_grpc_py.Step.Growth.{Grows, Grows-refl}
use bee_rpc_over_grpc_py.Step.Triples.{Meets, Meets-ok, Meets-err, Meets-weaken, Meets-bind}
use bee_rpc_over_grpc_py.Saving.{
  feed, Progress, note_block, Part, SaveBlock, on_field, file_loop, save_chunks_to_file, PartList,
  content_loop,
}
use bee_rpc_over_grpc_py.Saving.Complete.{
  Reads, IsComplete, Built, own, sub, nothing, Built-append, Built-later,
}

pub feed-empty : (hs : List Bytes) → feed [] hs ≡ hs
feed-empty [] = refl
feed-empty (h ∷ hs) = simp (append-nil h, feed-empty hs)

feed-append : (x y : Bytes) (hs : List Bytes) → feed y (feed x hs) ≡ feed (x ++ y) hs
feed-append x y [] = refl
feed-append x y (h ∷ hs) = simp (append_assoc h x y, feed-append x y hs)

-- The entry of a block.
abbrev pub entry : Bytes → Block → Json
entry id b = array (cons (text id) (cons (array (numbers_json b.previous_lengths_position)) nil))

note_block-append :
    (es : List Json) (e : Json) (id : Bytes) (b : Block)
    → note_block (es ++ (e ∷ [])) id b ≡ (es ++ (e ∷ [])) ++ (entry id b ∷ [])
note_block-append [] e id b = refl
note_block-append (e' ∷ es) e id b = refl

-- No part has this index or a larger one.
abbrev pub Below : PartList → ℕ → Type 0
Below parts index = (n : ℕ) → index ≤ n → find_part parts n ≡ none

find_part-append-some :
    (xs ys : PartList) (n : ℕ) (c : Bytes)
    → find_part xs n ≡ some c
    → find_part (xs ++ ys) n ≡ some c
unfolding find_part
find_part-append-some [] ys n c h = cc
find_part-append-some ((i, x) ∷ xs) ys n c h = elim (Bool-cases (i == n)) [
  | inl here ↦ rw here (rw here at h)
  | inr there ↦ rw there (find_part-append-some xs ys n c (rw there at h))
]

find_part-append-none :
    (xs ys : PartList) (n : ℕ) → find_part xs n ≡ none → find_part (xs ++ ys) n ≡ find_part ys n
unfolding find_part
find_part-append-none [] ys n h = refl
find_part-append-none ((i, x) ∷ xs) ys n h = elim (Bool-cases (i == n)) [
  | inl here ↦ cc (rw here at h)
  | inr there ↦ rw there (find_part-append-none xs ys n (rw there at h))
]

no_parts : (ys : PartList) (n : ℕ) (c : Bytes) → find_part [] n ≡ some c → find_part ys n ≡ some c
unfolding find_part
no_parts ys n c h = cc

find_part-new :
    (parts : PartList) (index : ℕ) (c : Bytes)
    → Below parts index
    → find_part (parts ++ ((index, c) ∷ [])) index ≡ some c
find_part-new parts index c below =
    find_part-append-none parts ((index, c) ∷ []) index (below index (omega arith))
    ∙ (unfold find_part in ground arith)

pub Below-new :
    (parts : PartList) (index : ℕ) (c : Bytes)
    → Below parts index
    → Below (parts ++ ((index, c) ∷ [])) (suc index)
Below-new parts index c below n h =
    find_part-append-none parts ((index, c) ∷ []) n (below n (omega (arith, h)))
    ∙ (unfold find_part in ground (arith, h))

module _ (env : Environment) where
  -- A block was saved, or was held, and can be read; the hash objects were fed what it reads as.
  abbrev pub BlockSaved : Progress → Store → Progress → Type 0
  BlockSaved p s' p' =
      (id : Bytes) × (block : Block) × (payload : Bytes) × (p'.entries
        ≡ note_block p.entries id block)
      × (p'.hashers ≡ feed payload p.hashers)
      × Reads env s' id payload

  abbrev pub SavesBlocks : SaveBlock → Type 0
  SavesBlocks rec =
      (b : Buffer) (block : Block) (p : Progress) (s : Store)
      → IsComplete env s
      → Meets (IsComplete env) (BlockSaved p) s (rec b block p s)

  -- A file was written, and a block behind it where one began.
  abbrev pub FilePost : Bytes → List Json → List Bytes → Store → Part → Type 0
  FilePost written entries hashers s' part =
      (out : Bytes) × (extra : List Json) × (payload : Bytes) × (part.content ≡ written ++ out)
      × (part.progress.entries ≡ entries ++ extra)
      × (part.progress.hashers ≡ feed (out ++ payload) hashers)
      × Built env s' [] extra payload

  -- The directory so far: its entries read as the bytes that the hash objects were fed. The first
  -- entry is the part 1.
  abbrev pub Written : List Bytes → Store → PartList × Progress → Type 0
  Written start s (parts, p) =
      (bs : Bytes) × (rest : List Json) × Built env s parts p.entries bs
      × (p.hashers ≡ feed bs start)
      × (p.entries ≡ num 1 ∷ rest)

  -- The same between two rounds, where the next part is still to come.
  abbrev pub Between : List Bytes → Store → ℕ → PartList → Progress → Type 0
  Between start s index parts p =
      (bs : Bytes) × (rest : List Json) × Built env s parts p.entries bs
      × (p.hashers ≡ feed bs start)
      × (p.entries ++ (num index ∷ []) ≡ num 1 ∷ rest)

  module _ (rec : SaveBlock) (saves : SavesBlocks rec) where
    on_field-Meets :
        (written : Bytes) (b : Buffer) (input : Trace Buffer) (es : List Json) (e : Json)
        (hashers : List Bytes) (o : Option Block) (later : Step Part) (s : Store)
        → IsComplete env s
        → Meets (IsComplete env) (FilePost written (es ++ (e ∷ [])) hashers) s (later s)
        → Meets (IsComplete env) (FilePost written (es ++ (e ∷ [])) hashers) s (
            on_field rec written b
              (record {
                input = input;
                exhausted = false;
                hashers = hashers;
                entries = es ++ (e ∷ []);
              })
              o
              later
              s)
    on_field-Meets written b input es e hashers none later s complete h = h
    on_field-Meets written b input es e hashers (some block) later s complete h =
        let p : Progress = record {
          input = input;
          exhausted = false;
          hashers = hashers;
          entries = es ++ (e ∷ []);
        } in
        Meets-bind (IsComplete env) (BlockSaved p) (FilePost written (es ++ (e ∷ [])) hashers) s
          (rec b block p s)
          (λ p' s'. (s', ok (record { whole = false; content = written; progress = p' })))
          (saves b block p s complete)
          (λ s' p' grows complete' (id, block', payload, noted, fed, reads).
            Meets-ok (IsComplete env) (FilePost written (es ++ (e ∷ [])) hashers) s'
              (record { whole = false; content = written; progress = p' }) complete'
              (
                [],
                entry id block' ∷ [],
                payload,
                sym (append-nil written),
                noted ∙ note_block-append es e id block',
                fed,
                subst (λ t. Built env s' [] (entry id block' ∷ []) t) (append-nil payload)
                    (sub id payload (array (numbers_json block'.previous_lengths_position)) reads
                      nothing),
              ))

    file_loop-Meets :
        (written : Bytes) (es : List Json) (e : Json) (hashers : List Bytes) (input : Trace Buffer)
        (s : Store)
        → IsComplete env s
        → Meets
            (IsComplete env)
            (FilePost written (es ++ (e ∷ [])) hashers)
            s
            (file_loop rec written (es ++ (e ∷ [])) hashers input s)
    unfolding file_loop
    file_loop-Meets written es e hashers stop s complete =
        Meets-ok (IsComplete env) (FilePost written (es ++ (e ∷ [])) hashers) s _ complete (
          [],
          [],
          [],
          sym (append-nil written),
          sym (append-nil (es ++ (e ∷ []))),
          sym (feed-empty hashers),
          nothing,
        )
    file_loop-Meets written es e hashers (raise x) s complete =
        Meets-err (IsComplete env) (FilePost written (es ++ (e ∷ [])) hashers) s x complete
    file_loop-Meets written es e hashers (next b input) s complete =
        on_field-Meets written b input es e hashers b.block _ s complete (
          Meets-weaken (IsComplete env)
            (FilePost (written ++ chunk_of b.chunk) (es ++ (e ∷ []))
              (feed (chunk_of b.chunk) hashers))
            (FilePost written (es ++ (e ∷ [])) hashers) s _
            (λ s' part grows (out, extra, payload, content, noted, fed, built). (
              chunk_of b.chunk ++ out,
              extra,
              payload,
              content ∙ append_assoc written (chunk_of b.chunk) out,
              noted,
              fed
                  ∙ feed-append (chunk_of b.chunk) (out ++ payload) hashers
                  ∙ ap (λ t. feed t hashers) (sym (append_assoc (chunk_of b.chunk) out payload)),
              built,
            ))
            (file_loop-Meets (written ++ chunk_of b.chunk) es e (feed (chunk_of b.chunk) hashers)
              input s complete))

    pub save_chunks_to_file-Meets :
        (prev : Bytes) (es : List Json) (e : Json) (p : Progress) (s : Store)
        → IsComplete env s
        → Meets
            (IsComplete env)
            (FilePost prev (es ++ (e ∷ [])) (feed prev p.hashers))
            s
            (save_chunks_to_file rec prev (record p { entries = es ++ (e ∷ []) }) s)
    unfolding save_chunks_to_file
    save_chunks_to_file-Meets prev es e p s complete =
        file_loop-Meets prev es e (feed prev p.hashers) p.input s complete

    -- What a file adds.
    pub part-Written :
        (start : List Bytes) (s s' : Store) (index : ℕ) (prev : Bytes) (parts : PartList)
        (p : Progress) (part : Part)
        → Grows s s'
        → Below parts index
        → Between start s index parts p
        → FilePost prev (p.entries ++ (num index ∷ [])) (feed prev p.hashers) s' part
        → Written start s' (parts ++ ((index, part.content) ∷ []), part.progress)
    part-Written start s s' index prev parts p part grows below (bs, rest, built, fed, first)
          (out, extra, payload, content, noted, more, saved) =
        let files = parts ++ ((index, part.content) ∷ []) in
        let old : Built env s' files p.entries bs =
          Built-later env grows (λ n c h. find_part-append-some parts _ n c h) built in
        let new : Built env s' files (num index ∷ []) (part.content ++ []) =
          own index part.content (find_part-new parts index part.content below) nothing in
        let block : Built env s' files extra payload =
          Built-later env (Grows-refl s') (no_parts files) saved in
        let same : bs ++ (prev ++ (out ++ payload)) ≡ (bs ++ (part.content ++ [])) ++ payload =
          simp (content, append-nil, append_assoc) in
        (
          (bs ++ (part.content ++ [])) ++ payload,
          rest ++ extra,
          subst (λ es. Built env s' files es ((bs ++ (part.content ++ [])) ++ payload)) (sym noted)
              (Built-append env (Built-append env old new) block),
          more
              ∙ feed-append prev (out ++ payload) p.hashers
              ∙ ap (λ hs. feed (prev ++ (out ++ payload)) hs) fed
              ∙ feed-append bs (prev ++ (out ++ payload)) start
              ∙ ap (λ t. feed t start) same,
          noted ∙ ap (λ es. es ++ extra) first,
        )

    -- The end of a round.
    round-Meets :
        (start : List Bytes) (rounds index : ℕ) (parts : PartList) (part : Part) (s : Store)
        (whole : Bool)
        → IsComplete env s
        → Below parts index
        → Written start s (parts ++ ((index, part.content) ∷ []), part.progress)
        → (Between start s (suc index) (parts ++ ((index, part.content) ∷ [])) part.progress
            → Meets (IsComplete env) (Written start) s (
                content_loop rounds rec
                  (suc index)
                  []
                  (parts ++ ((index, part.content) ∷ []))
                  part.progress
                  s))
        → Meets (IsComplete env) (Written start) s (
            (if whole
                then (λ t. (t, ok (parts ++ ((index, part.content) ∷ []), part.progress)))
                else content_loop rounds rec
                    (suc index)
                    []
                    (parts ++ ((index, part.content) ∷ []))
                    part.progress)
              s)
    round-Meets start rounds index parts part s true complete below done later =
        Meets-ok (IsComplete env) (Written start) s _ complete done
    round-Meets start rounds index parts part s false complete below (bs, rest, built, fed, first)
          later =
        later (
          bs,
          rest ++ (num (suc index) ∷ []),
          built,
          fed,
          ap (λ es. es ++ (num (suc index) ∷ [])) first,
        )

    pub content_loop-Meets :
        (start : List Bytes) (rounds index : ℕ) (prev : Bytes) (parts : PartList) (p : Progress)
        (s : Store)
        → IsComplete env s
        → Below parts index
        → Between start s index parts p
        → Meets (IsComplete env) (Written start) s (content_loop rounds rec index prev parts p s)
    unfolding content_loop
    content_loop-Meets start zero index prev parts p s complete below between =
        Meets-err (IsComplete env) (Written start) s _ complete
    content_loop-Meets start (suc rounds) index prev parts p s complete below between =
        Meets-bind (IsComplete env)
          (FilePost prev (p.entries ++ (num index ∷ [])) (feed prev p.hashers)) (Written start) s _
          _ (save_chunks_to_file-Meets prev p.entries (num index) p s complete)
          (λ s' part grows complete' post.
            let done = part-Written start s s' index prev parts p part grows below between post in
            round-Meets start rounds index parts part s' part.whole complete' below done (
              content_loop-Meets start rounds (suc index) [] (parts ++ ((index, part.content) ∷ []))
                part.progress s' complete' (Below-new parts index part.content below)))
