-- ===== src/Outcome.antt =====
-- Python's exceptions as values. A function that may raise returns a `Result`.
use bee_rpc_over_grpc_py.Prelude.{◌≡◌, refl, ◌⊎◌, inl, inr}

-- The exception classes that the package raises or lets through. `plain` is `Exception`, raised with
-- a message; `not_found` stands for the OSError of a path that is missing.
pub data Error : Type 0 where
  plain hash_type_error block_id_mismatch lengths_error split_error : Error
  not_found value_error overflow_error index_error key_error type_error recursion_error
        stop_iteration :
      Error

-- How a function that may raise ends.
pub data Result {ℓ} (A : Type ℓ) : Type ℓ where
  err : Error → Result A
  ok : A → Result A

-- The next call of a body, unless this one raised; and where its value is not used.
infixl 5 ◌>>=◌
abbrev pub ◌>>=◌ {ℓ κ} :
    {A : Type ℓ} {B : Type κ} (first : Result A) (next : A → Result B) → Result B
err raised >>= next = err raised
ok value >>= next = next value

infixl 5 ◌>>◌
abbrev pub ◌>>◌ {κ} : {B : Type κ} (check : Result (Unit {0})) (next : Result B) → Result B
err raised >> next = err raised
ok done >> next = next

pub Result-cases {ℓ} :
    {A : Type ℓ} (r : Result A) → ((a : A) × (r ≡ ok a)) ⊎ ((e : Error) × (r ≡ err e))
Result-cases (ok a) = inl (a, refl)
Result-cases (err e) = inr (e, refl)

-- Inversion of a step that succeeded.
pub bind-eq-ok {ℓ κ} :
    {A : Type ℓ} {B : Type κ} (m : Result A) (f : A → Result B) (b : B)
    → (m >>= f) ≡ ok b
    → (a : A) × (m ≡ ok a) × (f a ≡ ok b)
bind-eq-ok (ok a) f b h = (a, refl, h)
bind-eq-ok (err e) f b h = cc

pub ok_injective {ℓ} : {A : Type ℓ} {a b : A} → ok a ≡ ok b → a ≡ b
ok_injective h = cc

pub then-eq-ok {ℓ} :
    {B : Type ℓ} (m : Result (Unit {0})) (k : Result B) (b : B)
    → (m >> k) ≡ ok b
    → (m ≡ ok tt) × (k ≡ ok b)
then-eq-ok (ok _) k b h = (refl, h)
then-eq-ok (err e) k b h = cc
