-- ===== src/Trace.antt =====
-- Python's generators: what one yields, and whether it then ends or raises.
use bee_rpc_over_grpc_py.Prelude.{ℕ, suc, ◌≡◌, refl, ap, List, [], ◌∷◌, ◌++◌, inl, inr}
use bee_rpc_over_grpc_py.Outcome.{Error, Result, ok, err, ok_injective, Result-cases, ◌>>=◌}

pub data Trace {ℓ} (A : Type ℓ) : Type ℓ where
  stop : Trace A
  raise : Error → Trace A
  next : A → Trace A → Trace A

module _ {ℓ} {A : Type ℓ} where
  infixr 60 ◌then_from◌
  -- `yield from` twice in a row.
  abbrev pub ◌then_from◌ : Trace A → Trace A → Trace A
  stop then_from u = u
  raise e then_from u = raise e
  next a t then_from u = next a (t then_from u)

  -- How many values there are.
  abbrev pub size : Trace A → ℕ
  size stop = 0
  size (raise e) = 0
  size (next a t) = suc (size t)

  -- What a consumer that takes everything gets: the values, or the exception.
  abbrev pub drain : Trace A → Result (List A)
  drain stop = ok []
  drain (raise e) = err e
  drain (next a t) = drain t >>= λ as_list. ok (a ∷ as_list)

  pub then_from_stop : (t : Trace A) → t then_from stop ≡ t
  then_from_stop stop = refl
  then_from_stop (raise e) = refl
  then_from_stop (next a t) = ap (λ u. next a u) (then_from_stop t)

-- A generator that is read to its end behind another one.
pub drain-then_from :
    {A : Type 0} (t u : Trace A) (xs ys : List A)
    → drain t ≡ ok xs
    → drain u ≡ ok ys
    → drain (t then_from u) ≡ ok (xs ++ ys)
drain-then_from stop u [] ys h k = k
drain-then_from stop u (x ∷ xs) ys h k = cc
drain-then_from (raise e) u xs ys h k = cc
drain-then_from (next a t) u xs ys h k = elim (Result-cases (drain t)) [
  | inl (zs, drained) ↦
      let same : a ∷ zs ≡ xs = ok_injective (rw drained at h) in
      rw (drain-then_from t u zs ys drained k) (ap (λ t. ok (t ++ ys)) same)
  | inr (e, raised) ↦ cc (rw raised at h)
]

pub drain-next :
    {A : Type 0} (b : A) (t : Trace A) (bs : List A)
    → drain (next b t) ≡ ok bs
    → (tail : List A) × (drain t ≡ ok tail) × (bs ≡ b ∷ tail)
drain-next b t bs h = elim (Result-cases (drain t)) [
  | inl (tail, drained) ↦ (tail, drained, cc (rw drained at h))
  | inr (e, raised) ↦ cc (rw raised at h)
]
