-- ===== src/Tree/Lookup.antt =====
-- A block that was added is found at the end of its pointers, and so are those added before it.
use bee_rpc_over_grpc_py.Prelude.{
  ℕ, ◌≡◌, refl, sym, ap, ◌∙◌, ◌≢◌, ◌⊎◌, Bool, true, false, Option, none, some, List, [], ◌∷◌, ◌==◌,
  if◌then◌else◌, arith, Bool-cases, inl, inr,
}
use bee_rpc_over_grpc_py.Outcome.{ok, bind-eq-ok}
use bee_rpc_over_grpc_py.Varint.{Bytes}
use bee_rpc_over_grpc_py.Tree.{
  Tree, empty, leaf, branch, Entry, block, node, find_entry, put, set_entry, level_below,
  add_pointers,
}

-- What stands at the end of a list of pointers, where they lead anywhere.
abbrev pub follow : Option Entry → Option Tree
follow (some (node sub)) = some sub
follow _ = none

abbrev pub descend : Option Tree → (Tree → Option Entry) → Option Entry
descend none f = none
descend (some sub) f = f sub

unfoldable pub entry_at : List ℕ → Tree → Option Entry
unfolding find_entry
entry_at [] tree = none
entry_at (p ∷ []) tree = find_entry tree p
entry_at (p ∷ q ∷ ps) tree = descend (follow (find_entry tree p)) (λ sub. entry_at (q ∷ ps) sub)

find_entry-put :
    (k p : ℕ) (e : Entry) (rest : Tree)
    → find_entry (put k e rest) p ≡ (if k == p then some e else find_entry rest p)
unfolding find_entry
find_entry-put k p (block id) rest = refl
find_entry-put k p (node sub) rest = refl

same_test : (k p q : ℕ) → (k == p) ≡ true → (k == q) ≡ (p == q)
same_test k p q h = ground (arith, h)

different_test : (k p q : ℕ) → (k == p) ≡ false → ((k == q) ≡ false) ⊎ ((p == q) ≡ false)
different_test k p q h = elim (Bool-cases (k == q)) [
  | inl found ↦ inr (ground (arith, h, found))
  | inr other ↦ inl other
]

if-same :
    (b c : Bool) (x y z : Option Entry)
    → b ≡ c
    → (if b then x else y) ≡ (if c then x else (if b then z else y))
if-same true c x y z e = rw (sym e)
if-same false c x y z e = rw (sym e)

if-different :
    (b c : Bool) (e x y : Option Entry)
    → (b ≡ false) ⊎ (c ≡ false)
    → (if b then x else (if c then e else y)) ≡ (if c then e else (if b then x else y))
if-different true true e x y (inl h) = cc
if-different true true e x y (inr h) = cc
if-different true false e x y h = refl
if-different false c e x y h = refl

-- What a dictionary holds after an assignment.
find_entry-set_entry :
    (tree : Tree) (p q : ℕ) (e : Entry)
    → find_entry (set_entry tree p e) q ≡ (if p == q then some e else find_entry tree q)
unfolding find_entry set_entry
find_entry-set_entry empty p q e = find_entry-put p q e empty
find_entry-set_entry (leaf k id rest) p q e = elim (Bool-cases (k == p)) [
  | inl same ↦ rw same (
      find_entry-put k q e rest
      ∙ if-same (k == q) (p == q) (some e) (find_entry rest q) (some (block id))
          (same_test k p q same))
  | inr other ↦ rw other (
      ap (λ t. if k == q then some (block id) else t) (find_entry-set_entry rest p q e)
      ∙ if-different (k == q) (p == q) (some e) (some (block id)) (find_entry rest q)
          (different_test k p q other))
]
find_entry-set_entry (branch k sub rest) p q e = elim (Bool-cases (k == p)) [
  | inl same ↦ rw same (
      find_entry-put k q e rest
      ∙ if-same (k == q) (p == q) (some e) (find_entry rest q) (some (node sub))
          (same_test k p q same))
  | inr other ↦ rw other (
      ap (λ t. if k == q then some (node sub) else t) (find_entry-set_entry rest p q e)
      ∙ if-different (k == q) (p == q) (some e) (some (node sub)) (find_entry rest q)
          (different_test k p q other))
]

same_refl : (p : ℕ) → (p == p) ≡ true
same_refl p = ground arith

unfoldable pub is_prefix : List ℕ → List ℕ → Bool
is_prefix [] qs = true
is_prefix (p ∷ ps) [] = false
is_prefix (p ∷ ps) (q ∷ qs) = let more = is_prefix ps qs in if p == q then more else false

assigned :
    (tree tree' : Tree) (p q : ℕ) (e : Entry)
    → ok (set_entry tree p e) ≡ ok tree'
    → find_entry tree' q ≡ (if p == q then some e else find_entry tree q)
assigned tree tree' p q e h = cc (find_entry-set_entry tree p q e)

found :
    (tree tree' : Tree) (p : ℕ) (e : Entry)
    → ok (set_entry tree p e) ≡ ok tree'
    → find_entry tree' p ≡ some e
found tree tree' p e h = assigned tree tree' p p e h ∙ rw (same_refl p)

-- Where `create_lengths_tree` adds a list of pointers, the block stands at the end of them.
pub entry_at-add_pointers :
    (ps : List ℕ) (key : Bytes) (tree tree' : Tree)
    → add_pointers ps key tree ≡ ok tree'
    → entry_at ps tree' ≡ some (block key)
unfolding add_pointers entry_at
entry_at-add_pointers [] key tree tree' h = cc
entry_at-add_pointers (p ∷ []) key tree tree' h = found tree tree' p (block key) h
entry_at-add_pointers (p ∷ q ∷ ps) key tree tree' h =
    let (below, _, rest) = bind-eq-ok (level_below (find_entry tree p)) _ tree' h in
    let (sub, added, set) = bind-eq-ok (add_pointers (q ∷ ps) key below) _ tree' rest in
    ap (λ o. descend (follow o) (λ t. entry_at (q ∷ ps) t)) (found tree tree' p (node sub) set)
    ∙ (entry_at-add_pointers (q ∷ ps) key below sub added)

prefix_cases :
    (b more : Bool)
    → (if b then more else false) ≡ false
    → (b ≡ false) ⊎ ((b ≡ true) × (more ≡ false))
prefix_cases true more h = inr (refl, h)
prefix_cases false more h = inl refl

untouched :
    (tree tree' : Tree) (p q : ℕ) (e : Entry)
    → ok (set_entry tree p e) ≡ ok tree'
    → (p == q) ≡ false
    → find_entry tree' q ≡ find_entry tree q
untouched tree tree' p q e h other = assigned tree tree' p q e h ∙ rw other

same_key : (p q : ℕ) → (p == q) ≡ true → p ≡ q
same_key p q h = ground (arith, h)

no_leaf :
    (o : Option Entry) (below : Tree) (key : Bytes)
    → level_below o ≡ ok below
    → o ≢ some (block key)
no_leaf none below key h k = cc
no_leaf (some (block id)) below key h k = cc
no_leaf (some (node sub)) below key h k = cc

keep_below :
    (o : Option Entry) (below : Tree) (qs : List ℕ) (key : Bytes)
    → level_below o ≡ ok below
    → descend (follow o) (λ t. entry_at qs t) ≡ some (block key)
    → entry_at qs below ≡ some (block key)
keep_below none below qs key h k = cc
keep_below (some (block id)) below qs key h k = cc
keep_below (some (node sub)) below qs key h k = cc

-- Blocks that stand in the tree already keep their place, but for one whose pointers go through the
-- position that the new block is put at.
pub entry_at-add_pointers_other :
    (ps qs : List ℕ) (key key' : Bytes) (tree tree' : Tree)
    → add_pointers ps key tree ≡ ok tree'
    → entry_at qs tree ≡ some (block key')
    → is_prefix ps qs ≡ false
    → entry_at qs tree' ≡ some (block key')
unfolding add_pointers entry_at is_prefix
entry_at-add_pointers_other [] qs key key' tree tree' h k other = cc
entry_at-add_pointers_other (p ∷ ps) [] key key' tree tree' h k other = cc
entry_at-add_pointers_other (p ∷ []) (q ∷ []) key key' tree tree' h k other =
    elim (prefix_cases (p == q) true other) [
      | inl apart ↦ untouched tree tree' p q (block key) h apart ∙ k
      | inr (_, clash) ↦ cc
    ]
entry_at-add_pointers_other (p ∷ []) (q ∷ q2 ∷ qs) key key' tree tree' h k other =
    elim (prefix_cases (p == q) true other) [
      | inl apart ↦
          ap (λ o. descend (follow o) (λ t. entry_at (q2 ∷ qs) t))
            (untouched tree tree' p q (block key) h apart)
          ∙ k
      | inr (_, clash) ↦ cc
    ]
entry_at-add_pointers_other (p ∷ p2 ∷ ps) (q ∷ []) key key' tree tree' h k other =
    let (below, entered, rest) = bind-eq-ok (level_below (find_entry tree p)) _ tree' h in
    let (sub, added, set) = bind-eq-ok (add_pointers (p2 ∷ ps) key below) _ tree' rest in
    elim (prefix_cases (p == q) false other) [
      | inl apart ↦ untouched tree tree' p q (node sub) set apart ∙ k
      | inr (same, _) ↦
          elim (no_leaf (find_entry tree p) below key' entered
            (ap (λ t. find_entry tree t) (same_key p q same) ∙ k)) [ ]
    ]
entry_at-add_pointers_other (p ∷ p2 ∷ ps) (q ∷ q2 ∷ qs) key key' tree tree' h k other =
    let (below, entered, rest) = bind-eq-ok (level_below (find_entry tree p)) _ tree' h in
    let (sub, added, set) = bind-eq-ok (add_pointers (p2 ∷ ps) key below) _ tree' rest in
    let go = λ (o : Option Entry). descend (follow o) (λ t. entry_at (q2 ∷ qs) t) in
    elim (prefix_cases (p == q) (is_prefix (p2 ∷ ps) (q2 ∷ qs)) other) [
      | inl apart ↦ ap go (untouched tree tree' p q (node sub) set apart) ∙ k
      | inr (same, different) ↦
          ap (λ n. go (find_entry tree' n)) (sym (same_key p q same))
          ∙ ap go (found tree tree' p (node sub) set)
          ∙ entry_at-add_pointers_other (p2 ∷ ps) (q2 ∷ qs) key key' below sub added
              (keep_below (find_entry tree p) below (q2 ∷ qs) key' entered
                (ap (λ n. go (find_entry tree n)) (same_key p q same) ∙ k))
              different
    ]
