-- ===== src/Positions/Layout.antt =====
-- A position of the expanded stream and the file that holds it.
use bee_rpc_over_grpc_py.Prelude.{
  ℕ, zero, suc, ◌-◌, ◌<◌, ◌≤◌, ◌≡◌, refl, sym, ap, ◌∙◌, true, false, some, [], ◌∷◌, ◌++◌, length,
  length-append, get_elem?, ltb, if◌then◌else◌, arith, Bool-cases, inl, inr,
}
use bee_rpc_over_grpc_py.Outcome.{Result, ok}
use bee_rpc_over_grpc_py.Varint.{Bytes}
use bee_rpc_over_grpc_py.Store.{Directory, file, dir, Store}
use bee_rpc_over_grpc_py.Store.Sizes.{getsize}
use bee_rpc_over_grpc_py.Positions.{
  PathList, entries_of_multiblock_directory, seek_loop, seek_expanded_position,
}

module _ (store : Store) where
  -- The paths expand to these bytes, with directories in directories no deeper than the first
  -- argument; each directory measures as much as it expands to.
  pub data LaidOut : ℕ → PathList → Bytes → Type 0 where
    no_paths : {n : ℕ} → LaidOut n [] []
    single_file :
        {n : ℕ} {paths : PathList} {bs : Bytes} (content : Bytes)
        → LaidOut n paths bs
        → LaidOut n (some (file content) ∷ paths) (content ++ bs)
    directory :
        {n : ℕ} {paths inner : PathList} {bs inside : Bytes} (d : Directory)
        → entries_of_multiblock_directory store d ≡ ok inner
        → getsize store (some (dir d)) ≡ ok (length inside)
        → LaidOut n inner inside
        → LaidOut (suc n) paths bs
        → LaidOut (suc n) (some (dir d) ∷ paths) (inside ++ bs)

get_elem?-left : (xs ys : Bytes) (i : ℕ) → i < length xs → get_elem? (xs ++ ys) i ≡ get_elem? xs i
get_elem?-left [] ys i h = elim h [ ]
get_elem?-left (x ∷ xs) ys zero h = refl
get_elem?-left (x ∷ xs) ys (suc i) h = get_elem?-left xs ys i (omega arith)

get_elem?-right :
    (xs ys : Bytes) (i : ℕ) → length xs ≤ i → get_elem? (xs ++ ys) i ≡ get_elem? ys (i - length xs)
get_elem?-right [] ys i h = ap (λ (t : ℕ). get_elem? ys t) (omega arith)
get_elem?-right (x ∷ xs) ys zero h = elim h [ ]
get_elem?-right (x ∷ xs) ys (suc i) h =
    get_elem?-right xs ys i (omega arith) ∙ ap (λ (t : ℕ). get_elem? ys t) (omega arith)

ltb-yes : (i n : ℕ) → ltb i n ≡ true → i < n
ltb-yes i n h = ground (arith, h)

ltb-no : (i n : ℕ) → ltb i n ≡ false → n ≤ i
ltb-no i n h = ground (arith, h)

-- A file and an offset in it, where the byte of `bs` at the position stands.
abbrev pub Locates : Result (Bytes × ℕ) → Bytes → ℕ → Type 0
Locates r bs position =
    (content : Bytes) × (offset : ℕ) × (r ≡ ok (content, offset))
    × (offset < length content)
    × (get_elem? content offset ≡ get_elem? bs position)

-- The bytes `xs` are the first path's, and `ys` those of the paths behind it.
first_or_later :
    (here later : Result (Bytes × ℕ)) (xs ys : Bytes) (position : ℕ)
    → (position < length xs → Locates here xs position)
    → (length xs ≤ position → Locates later ys (position - length xs))
    → Locates (if ltb position (length xs) then here else later) (xs ++ ys) position
first_or_later here later xs ys position h k = elim (Bool-cases (ltb position (length xs))) [
  | inl within ↦
      let lt = ltb-yes position (length xs) within in
      let (content, offset, found, inside, same) = h lt in
      rw within (content, offset, found, inside, same ∙ sym (get_elem?-left xs ys position lt))
  | inr behind ↦
      let le = ltb-no position (length xs) behind in
      let (content, offset, found, inside, same) = k le in
      rw behind (content, offset, found, inside, same ∙ sym (get_elem?-right xs ys position le))
]

module _ (store : Store) where
  -- A position before the end of the expanded stream is found, in a single file, at any depth of
  -- directories, and the byte at the offset that comes back is the one that stands at the position
  -- in the stream. The fuel is one more than the depth.
  pub seek_expanded_position-Locates :
      (n : ℕ) (paths : PathList) (bs : Bytes) (position : ℕ)
      → LaidOut store n paths bs
      → position < length bs
      → Locates (seek_expanded_position store (suc n) position paths) bs position
  unfolding seek_expanded_position seek_loop
  seek_expanded_position-Locates n _ _ position no_paths lt = elim lt [ ]
  seek_expanded_position-Locates n _ _ position (single_file {paths} {bs} content later) lt =
      let longer = length-append content bs in
      first_or_later (ok (content, position))
        (seek_expanded_position store (suc n) (position - length content) paths) content bs position
        (λ within. (content, position, refl, within, refl))
        (λ behind.
          seek_expanded_position-Locates n paths bs (position - length content) later
            (omega (arith, longer, behind)))
  seek_expanded_position-Locates _ _ _ position
        (directory {n} {paths} {inner} {bs} {inside} d es sz below later) lt =
      let longer = length-append inside bs in
      rw (sz, es)
        (first_or_later (seek_expanded_position store (suc n) position inner)
          (seek_expanded_position store (suc (suc n)) (position - length inside) paths) inside bs
          position (λ within. seek_expanded_position-Locates n inner inside position below within)
          (λ behind.
            seek_expanded_position-Locates (suc n) paths bs (position - length inside) later
              (omega (arith, longer, behind))))
