-- ===== src/Receiving/Setup.antt =====
-- The arguments of `parse_from_buffer` (src/bee_rpc/client.py): `indices` and
-- `partitions_message_mode`. A type of messages is a value of `T`. Whatever is raised here, the caller
-- gets a plain Exception in its place.
use bee_rpc_over_grpc_py.Prelude.{ℕ, Bool, true, false, ◌&&◌, [], ◌∷◌, ◌==◌, if◌then◌else◌}
use bee_rpc_over_grpc_py.Outcome.{Result, ok, err, plain, ◌>>=◌}
use bee_rpc_over_grpc_py.Driver.{Dict, set_key}

-- Nothing, one type, or a dictionary from indices to types.
pub data Indices (T : Type 0) : Type 0 where
  no_indices : Indices T
  one_type : T → Indices T
  by_index : Dict T → Indices T

-- One Boolean for all indices, a dictionary of what is true and what is not, or something else.
pub data Modes : Type 0 where
  one_mode : Bool → Modes
  mode_of : Dict Bool → Modes
  other_modes : Modes

unfoldable pub has_key : {A : Type 0} → Dict A → ℕ → Bool
has_key [] k = false
has_key ((k', v) ∷ rest) k = let more = has_key rest k in if k' == k then true else more

unfoldable pub within : {A B : Type 0} → Dict A → Dict B → Bool
unfolding has_key
within [] e = true
within ((k, v) ∷ d) e = has_key e k && within d e

-- `d.keys() == e.keys()`
abbrev pub same_keys : {A B : Type 0} → Dict A → Dict B → Bool
same_keys d e = within d e && within e d

unfoldable pub for_all : {A : Type 0} → Bool → Dict A → Dict Bool
for_all b [] = []
for_all b ((k, v) ∷ d) = (k, b) ∷ for_all b d

-- The keys that are missing get `[False]`, which is true since it is not empty.
unfoldable pub complete_modes : {A : Type 0} → Dict Bool → Dict A → Dict Bool
unfolding has_key set_key
complete_modes modes [] = modes
complete_modes modes ((k, v) ∷ indices) =
    let added = complete_modes (set_key modes k true) indices in
    let kept = complete_modes modes indices in if has_key modes k then kept else added

abbrev modes_for : {A : Type 0} → Modes → Dict A → Result (Dict Bool)
modes_for (one_mode b) indices = ok (for_all b indices)
modes_for (mode_of modes) indices = ok (complete_modes modes indices)
modes_for other_modes indices = err plain

module _ {T : Type 0} (is_message : T → Bool) (bytes_type : T) where
  -- Where nothing is given, or an empty dictionary, an instance of `Empty` takes its place, which is no
  -- class, so that `issubclass` raises.
  abbrev indices_for : Indices T → Result (Dict T)
  indices_for no_indices = err plain
  indices_for (one_type t) = if is_message t then ok ((1, t) ∷ []) else err plain
  indices_for (by_index []) = err plain
  indices_for (by_index (e ∷ es)) = ok (e ∷ es)

  unfoldable pub prepare : Indices T → Modes → Result (Dict T × Dict Bool)
  unfolding set_key for_all complete_modes within
  prepare indices modes = do
    given ← indices_for indices
    let all_indices = set_key given 0 bytes_type
    all_modes ← modes_for modes all_indices
    if same_keys all_modes all_indices then ok (all_indices, all_modes) else err plain
