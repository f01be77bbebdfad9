-- ===== src/Step.antt =====
-- Python code that works on the registry of blocks and may raise: a step takes the registry as it is,
-- and gives it as it is left together with the result. What was stored before a raise stays stored.
pub mod Keeping
pub mod Growth
pub mod Triples
use bee_rpc_over_grpc_py.Outcome.{Result, ok, err}
use bee_rpc_over_grpc_py.Store.{Store}

-- A step on the registry.
abbrev pub Step : Type 0 → Type 0
Step A = Store → Store × Result A

abbrev pub pure : {A : Type 0} → Result A → Step A
pure r store = (store, r)

abbrev pub continue : {A B : Type 0} → Store × Result A → (A → Step B) → Store × Result B
continue (store, ok a) f = f a store
continue (store, err e) f = (store, err e)

infixl 5 ◌>>=◌
abbrev pub ◌>>=◌ : {A B : Type 0} → Step A → (A → Step B) → Step B
◌>>=◌ m f store = continue (m store) f
