-- ===== src/Environment/Algorithms.antt =====
-- The settings name the algorithm that is used, and the registry resolves each name to it.
use bee_rpc_over_grpc_py.Prelude.{
  ℕ, zero, suc, ◌≡◌, refl, sym, ap, ◌∙◌, inl, inr, Bool-cases, false, Option, none, some, [], ◌∷◌,
  bytes_eq, bytes_eq_sound, if◌then◌else◌,
}
use bee_rpc_over_grpc_py.Outcome.{Result, ok, err, hash_type_error}
use bee_rpc_over_grpc_py.Varint.{Bytes}
use bee_rpc_over_grpc_py.Environment.{
  HashFactory, hash_type_of, Registry, hasher_for, Environment, Changes, set_cache_dir,
  choose_factory, apply_factory, finish, set_block_depth, set_block_dir, modify_env,
}

-- Each entry of the registry stands under the name of its algorithm.
abbrev pub Named : Registry → Type 0
Named [] = Unit
Named ((t, factory) ∷ rest) = (t ≡ hash_type_of factory) × Named rest

hasher_for_sound :
    (registry : Registry) (hash_type : Bytes) (factory : HashFactory)
    → Named registry
    → hasher_for registry hash_type ≡ ok factory
    → hash_type_of factory ≡ hash_type
unfolding hasher_for
hasher_for_sound [] hash_type factory h e = cc
hasher_for_sound ((t, f) ∷ rest) hash_type factory h e = elim (Bool-cases (bytes_eq t hash_type)) [
  | inl same ↦
      let eq : f ≡ factory = cc (rw same at e) in
      rw (← eq) (sym h.0 ∙ bytes_eq_sound t hash_type same)
  | inr other ↦ hasher_for_sound rest hash_type factory h.1 (rw other at e)
]

-- The settings agree with themselves.
pub record IsConsistent (e : Environment) : Type 0 where
  pub named : Named e.algorithms
  pub typed : e.hash_type ≡ hash_type_of e.hash_factory

-- The chosen algorithm, if there is one, is called what `hash_type_of` says; and a request by name
-- that the registry cannot answer is the only failure.
choose-IsConsistent :
    (factory : Option HashFactory) (hash_type : Option Bytes) (e : Environment)
    → IsConsistent e
    → IsConsistent (choose_factory factory hash_type e).0
unfolding choose_factory
choose-IsConsistent (some f) t e h = record { named = (refl, h.named); typed = h.typed }
choose-IsConsistent none none e h = h
choose-IsConsistent none (some []) e h = h
choose-IsConsistent none (some (t ∷ ts)) e h = h

apply-IsConsistent :
    (chosen : Option HashFactory) (e : Environment)
    → IsConsistent e
    → IsConsistent (apply_factory chosen e)
unfolding apply_factory
apply-IsConsistent none e h = h
apply-IsConsistent (some f) e h = elim (Bool-cases (bytes_eq (hash_type_of f) e.hash_type)) [
  | inl same ↦ simp same h
  | inr other ↦ simp other (record { named = h.named; typed = refl })
]

abbrev pub SameHashing : Environment → Environment → Type 0
SameHashing a b =
    (a.algorithms ≡ b.algorithms) × (a.hash_type ≡ b.hash_type) × (a.hash_factory ≡ b.hash_factory)

cache-IsConsistent :
    (dir : Option Bytes) (e : Environment) → IsConsistent e → IsConsistent (set_cache_dir dir e)
cache-IsConsistent none e h = h
cache-IsConsistent (some []) e h = h
cache-IsConsistent (some (c ∷ cs)) e h = record { named = h.named; typed = h.typed }

depth-IsConsistent :
    (n : Option ℕ) (e : Environment) → IsConsistent e → IsConsistent (set_block_depth n e)
depth-IsConsistent none e h = h
depth-IsConsistent (some zero) e h = h
depth-IsConsistent (some (suc n)) e h = record { named = h.named; typed = h.typed }

dir-IsConsistent :
    (dir : Option Bytes) (e : Environment) → IsConsistent e → IsConsistent (set_block_dir dir e)
dir-IsConsistent none e h = h
dir-IsConsistent (some []) e h = h
dir-IsConsistent (some (c ∷ cs)) e h = record { named = h.named; typed = h.typed }

finish-IsConsistent :
    (c : Changes) (e : Environment) (chosen : Result (Option HashFactory))
    → IsConsistent e
    → IsConsistent (finish c e chosen).0
finish-IsConsistent c e (err x) h = h
finish-IsConsistent c e (ok chosen) h =
    let last =
      dir-IsConsistent c.new_block_dir _
        (depth-IsConsistent c.new_block_depth _ (apply-IsConsistent chosen e h)) in
    record { named = last.named; typed = last.typed }

-- `modify_env` keeps the settings consistent, whatever it is given and whether or not it raises: the
-- hash type is that of the algorithm that is used, and every registered type is its algorithm's.
pub modify_env-IsConsistent :
    (c : Changes) (e : Environment) → IsConsistent e → IsConsistent (modify_env c e).0
unfolding modify_env
modify_env-IsConsistent c e h = finish-IsConsistent c _ _ (
    choose-IsConsistent c.new_hash_factory c.new_hash_type _
      (cache-IsConsistent c.new_cache_dir e h))

-- A change of algorithm by its name alone.
abbrev pub by_type : Bytes → Changes
by_type hash_type = record {
  new_cache_dir = none;
  new_hash_type = some hash_type;
  new_hash_factory = none;
  new_block_depth = none;
  new_block_dir = none;
  new_skip_wbp_generation = false;
}

hash_type-apply_factory :
    (factory : HashFactory) (e : Environment)
    → (apply_factory (some factory) e).hash_type ≡ hash_type_of factory
unfolding apply_factory
hash_type-apply_factory factory e =
    elim (Bool-cases (bytes_eq (hash_type_of factory) e.hash_type)) [
      | inl same ↦ simp same (sym (bytes_eq_sound _ _ same))
      | inr other ↦ simp other
    ]

hash_factory-apply_factory :
    (factory : HashFactory) (e : Environment)
    → (apply_factory (some factory) e).hash_factory
      ≡ (if bytes_eq (hash_type_of factory) e.hash_type then e.hash_factory else factory)
unfolding apply_factory
hash_factory-apply_factory factory e =
    elim (Bool-cases (bytes_eq (hash_type_of factory) e.hash_type)) [
      | inl same ↦ simp same
      | inr other ↦ simp other
    ]

removed-apply_factory :
    (factory : HashFactory) (e : Environment)
    → (apply_factory (some factory) e).removed
      ≡ (if bytes_eq (hash_type_of factory) e.hash_type then e.removed else e.block_dir ∷ e.removed)
unfolding apply_factory
removed-apply_factory factory e = elim (Bool-cases (bytes_eq (hash_type_of factory) e.hash_type)) [
  | inl same ↦ simp same
  | inr other ↦ simp other
]

-- On consistent settings, choosing an algorithm by a name that the registry has succeeds: from then on
-- the node hashes under that name. If it is another name than before, it hashes with the registered
-- algorithm and the blocks are removed; if it is the same, algorithm and blocks stay. The algorithm that
-- is used has the name in both cases.
pub modify_env-by_type :
    (t : ℕ) (ts : Bytes) (e : Environment) (factory : HashFactory)
    → IsConsistent e
    → hasher_for e.algorithms (t ∷ ts) ≡ ok factory
    → ((modify_env (by_type (t ∷ ts)) e).1 ≡ ok tt)
      × ((modify_env (by_type (t ∷ ts)) e).0.hash_type ≡ t ∷ ts)
      × ((modify_env (by_type (t ∷ ts)) e).0.hash_factory
          ≡ (if bytes_eq (t ∷ ts) e.hash_type then e.hash_factory else factory))
      × (hash_type_of (modify_env (by_type (t ∷ ts)) e).0.hash_factory ≡ t ∷ ts)
      × ((modify_env (by_type (t ∷ ts)) e).0.removed
          ≡ (if bytes_eq (t ∷ ts) e.hash_type then e.removed else e.block_dir ∷ e.removed))
modify_env-by_type t ts e factory h found =
    let name = hasher_for_sound e.algorithms (t ∷ ts) factory h.named found in
    let still = (modify_env-IsConsistent (by_type (t ∷ ts)) e h).typed in
    unfold modify_env in
    rw (choose_factory, found)
      (
        refl,
        hash_type-apply_factory factory e ∙ name,
        hash_factory-apply_factory factory e
            ∙ ap (λ n. if bytes_eq n e.hash_type then e.hash_factory else factory) name,
        sym (rw (modify_env, choose_factory, found) at still)
            ∙ (hash_type-apply_factory factory e ∙ name),
        removed-apply_factory factory e
            ∙ ap (λ n. if bytes_eq n e.hash_type then e.removed else e.block_dir ∷ e.removed) name,
      )

-- By a name that it does not have: HashTypeError, and nothing changes.
pub modify_env-unknown :
    (t : ℕ) (ts : Bytes) (e : Environment)
    → hasher_for e.algorithms (t ∷ ts) ≡ err hash_type_error
    → modify_env (by_type (t ∷ ts)) e ≡ (e, err hash_type_error)
unfolding modify_env
modify_env-unknown t ts e h = rw (choose_factory, h)
