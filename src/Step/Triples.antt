-- ===== src/Step/Triples.antt =====
-- What a step does to the registry and, where it does not raise, what holds behind it.
use mathlib.Core.Path.{subst}
use bee_rpc_over_grpc_py.Prelude.{◌≡◌, refl}
use bee_rpc_over_grpc_py.Outcome.{Error, Result, ok, err}
use bee_rpc_over_grpc_py.Store.{Store}
use bee_rpc_over_grpc_py.Step.{Step, continue}
use bee_rpc_over_grpc_py.Step.Growth.{Grows, Grows-refl, Grows-trans}

module _ (Holds : Store → Type 0) where
  -- The registry has grown and still has the property, also behind a raise.
  pub record Meets {A : Type 0} (Post : Store → A → Type 0) (s : Store) (ran : Store × Result A)
      : Type 0 where
    pub grows : Grows s ran.0
    pub holds : Holds ran.0
    pub post : (a : A) → ran.1 ≡ ok a → Post ran.0 a

  module _ {A : Type 0} (Post : Store → A → Type 0) where
    pub Meets-ok : (s : Store) (a : A) → Holds s → Post s a → Meets Post s (s, ok a)
    Meets-ok s a h p = record {
      grows = Grows-refl s;
      holds = h;
      post = λ b e. subst (λ x. Post s x) (cc) p;
    }

    pub Meets-err : (s : Store) (e : Error) → Holds s → Meets Post s (s, err e)
    Meets-err s e h = record { grows = Grows-refl s; holds = h; post = λ b k. cc }

    pub Meets-weaken :
        (Post' : Store → A → Type 0) (s : Store) (ran : Store × Result A)
        → ((s' : Store) (a : A) → Grows s s' → Post s' a → Post' s' a)
        → Meets Post s ran
        → Meets Post' s ran
    Meets-weaken Post' s ran f m = record {
      grows = m.grows;
      holds = m.holds;
      post = λ a e. f ran.0 a m.grows (m.post a e);
    }

    pub Meets-bind :
        {B : Type 0} (Post' : Store → B → Type 0) (s : Store) (ran : Store × Result A)
        (f : A → Step B)
        → Meets Post s ran
        → ((s' : Store) (a : A) → Grows s s' → Holds s' → Post s' a → Meets Post' s' (f a s'))
        → Meets Post' s (continue ran f)
    Meets-bind Post' s (s', ok a) f m k =
        let later = k s' a m.grows m.holds (m.post a refl) in
        record {
          grows = Grows-trans s s' (f a s').0 m.grows later.grows;
          holds = later.holds;
          post = later.post;
        }
    Meets-bind Post' s (s', err e) f m k = record {
      grows = m.grows;
      holds = m.holds;
      post = λ b h. cc;
    }
