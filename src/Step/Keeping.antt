-- ===== src/Step/Keeping.antt =====
-- Reasoning about steps on the registry.
use bee_rpc_over_grpc_py.Prelude.{◌≡◌, refl, some}
use bee_rpc_over_grpc_py.Outcome.{Result, ok, err}
use bee_rpc_over_grpc_py.Varint.{Bytes}
use bee_rpc_over_grpc_py.Store.{Node, Store, find_node}
use bee_rpc_over_grpc_py.Step.{Step, pure, continue, ◌>>=◌}

-- Inversion of a step that succeeded.
pub continue-eq-ok :
    {A B : Type 0} (first : Store × Result A) (f : A → Step B) (s' : Store) (b : B)
    → continue first f ≡ (s', ok b)
    → (s1 : Store) × (a : A) × (first ≡ (s1, ok a)) × (f a s1 ≡ (s', ok b))
continue-eq-ok (s1, ok a) f s' b h = (s1, a, refl, h)
continue-eq-ok (s1, err e) f s' b h = cc

pub pure-eq-ok :
    {A : Type 0} (r : Result A) (s s' : Store) (a : A) → pure r s ≡ (s', ok a) → r ≡ ok a
pure-eq-ok r s s' a h = cc

-- All that was in the registry is there as it was.
pub record Keeps (s s' : Store) : Type 0 where
  pub kept : (id : Bytes) (node : Node) → find_node s id ≡ some node → find_node s' id ≡ some node

pub Keeps-refl : (s : Store) → Keeps s s
Keeps-refl s = record { kept = λ id node h. h }

pub Keeps-trans : (s s' s'' : Store) → Keeps s s' → Keeps s' s'' → Keeps s s''
Keeps-trans s s' s'' h k = record { kept = λ id node e. k.kept id node (h.kept id node e) }

-- A step that keeps the registry, whether or not it raises.
abbrev pub IsSafe : {A : Type 0} → Step A → Type 0
IsSafe m = (s : Store) → Keeps s (m s).0

pub IsSafe-pure : {A : Type 0} (r : Result A) → IsSafe (pure r)
IsSafe-pure r s = Keeps-refl s

pub IsSafe-bind :
    {A B : Type 0} (m : Step A) (f : A → Step B)
    → IsSafe m
    → ((a : A) → IsSafe (f a))
    → IsSafe (m >>= f)
IsSafe-bind {A} m f h k s = go (m s) (h s)
  where
    go : (first : Store × Result A) → Keeps s first.0 → Keeps s (continue first f).0
    go (s1, ok a) p = Keeps-trans s s1 _ p (k a s1)
    go (s1, err e) p = p
