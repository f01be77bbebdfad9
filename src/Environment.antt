-- ===== src/Environment.antt =====
-- The node's settings and the registry of hash algorithms (src/bee_rpc/utils.py): `hash_type_of`,
-- `register_hash_algorithm`, `hasher_for`, the class attributes of `Enviroment`, `modify_env` and
-- `hash_types_for_packing`. An algorithm of hashlib is a function from the bytes that it is fed to
-- the digest. The memory manager is not kept.
pub mod Algorithms
mod Runs
use bee_rpc_over_grpc_py.Prelude.{
  ℕ, zero, suc, Bool, true, false, not, ◌&&◌, Option, none, some, List, [], ◌∷◌, ◌++◌, bytes_eq,
  if◌then◌else◌,
}
use bee_rpc_over_grpc_py.Outcome.{Result, ok, err, hash_type_error}
use bee_rpc_over_grpc_py.Varint.{Bytes}

abbrev pub HashFactory : Type 0
HashFactory = Bytes → Bytes

unfoldable pub hash_type_of : HashFactory → Bytes
hash_type_of factory = factory []

-- `_HASH_ALGORITHMS`; a later entry for a type stands in front of an earlier one.
abbrev pub Registry : Type 0
Registry = List (Bytes × HashFactory)

unfoldable pub register_hash_algorithm : Registry → HashFactory → Registry
unfolding hash_type_of
register_hash_algorithm registry factory = (hash_type_of factory, factory) ∷ registry

unfoldable pub hasher_for : Registry → Bytes → Result HashFactory
hasher_for [] hash_type = err hash_type_error
hasher_for ((t, factory) ∷ rest) hash_type =
    if bytes_eq t hash_type then ok factory else hasher_for rest hash_type

pub record Environment : Type 0 where
  pub cache_dir : Bytes
  pub block_dir : Bytes
  pub block_depth : ℕ
  pub skip_wbp_generation : Bool
  pub hash_factory : HashFactory
  pub hash_type : Bytes
  pub algorithms : Registry
  pub removed : List Bytes

-- The arguments of `modify_env` beside the memory manager.
pub record Changes : Type 0 where
  pub new_cache_dir : Option Bytes
  pub new_hash_type : Option Bytes
  pub new_hash_factory : Option HashFactory
  pub new_block_depth : Option ℕ
  pub new_block_dir : Option Bytes
  pub new_skip_wbp_generation : Bool

-- `'grpcbigbuffer/'`
abbrev suffix : Bytes
suffix = 103 ∷ 114 ∷ 112 ∷ 99 ∷ 98 ∷ 105 ∷ 103 ∷ 98 ∷ 117 ∷ 102 ∷ 102 ∷ 101 ∷ 114 ∷ 47 ∷ []

abbrev set_cache_dir : Option Bytes → Environment → Environment
set_cache_dir none e = e
set_cache_dir (some []) e = e
set_cache_dir (some (c ∷ cs)) e = record e { cache_dir = (c ∷ cs) ++ suffix }

abbrev pub register : HashFactory → Environment → Environment
register factory e = record e { algorithms = register_hash_algorithm e.algorithms factory }

-- The factory that the arguments choose, `none` where they choose none.
abbrev found : Result HashFactory → Result (Option HashFactory)
found (ok factory) = ok (some factory)
found (err x) = err x

unfoldable pub choose_factory :
    Option HashFactory → Option Bytes → Environment → Environment × Result (Option HashFactory)
unfolding register_hash_algorithm hasher_for
choose_factory (some factory) hash_type e = (register factory e, ok (some factory))
choose_factory none none e = (e, ok none)
choose_factory none (some []) e = (e, ok none)
choose_factory none (some (t ∷ ts)) e = (e, found (hasher_for e.algorithms (t ∷ ts)))

-- Another algorithm takes effect: the registry of blocks, keyed by the former one, is removed.
abbrev pub use_factory : HashFactory → Environment → Environment
use_factory factory e = record e {
  hash_factory = factory;
  hash_type = hash_type_of factory;
  removed = e.block_dir ∷ e.removed;
}

unfoldable pub apply_factory : Option HashFactory → Environment → Environment
unfolding hash_type_of
apply_factory none e = e
apply_factory (some factory) e =
    if bytes_eq (hash_type_of factory) e.hash_type then e else use_factory factory e

abbrev set_block_depth : Option ℕ → Environment → Environment
set_block_depth none e = e
set_block_depth (some zero) e = e
set_block_depth (some (suc n)) e = record e { block_depth = suc n }

abbrev set_block_dir : Option Bytes → Environment → Environment
set_block_dir none e = e
set_block_dir (some []) e = e
set_block_dir (some (c ∷ cs)) e = record e { block_dir = c ∷ cs }

abbrev finish :
    Changes → Environment → Result (Option HashFactory) → Environment × Result (Unit {0})
finish c e (err x) = (e, err x)
finish c e (ok chosen) = (
  record (set_block_dir c.new_block_dir
      (set_block_depth c.new_block_depth (apply_factory chosen e))) {
        skip_wbp_generation = c.new_skip_wbp_generation;
      },
  ok tt,
)

-- What was written before a raise stays written.
unfoldable pub modify_env : Changes → Environment → Environment × Result (Unit {0})
unfolding choose_factory apply_factory
modify_env c e =
    let e1 = set_cache_dir c.new_cache_dir e in
    let (e2, chosen) = choose_factory c.new_hash_factory c.new_hash_type e1 in finish c e2 chosen

unfoldable pub hash_types_for_packing : Environment → List Bytes
hash_types_for_packing e = e.hash_type ∷ []
