-- ===== src/Varint/Runs.antt =====
-- Concrete runs, and the theorems at concrete inputs.
use bee_rpc_over_grpc_py.Prelude.{◌≡◌, refl, [], ◌∷◌, none, some}
use bee_rpc_over_grpc_py.Varint.{encode_bytes, get_position_length, set_varint}
use bee_rpc_over_grpc_py.Varint.RoundTrip.{get_position_length-encode_bytes}

encode_300 : encode_bytes 300 ≡ 0xac ∷ 0x02 ∷ []
unfolding encode_bytes
encode_300 = refl

read_cut : get_position_length 1 (7 ∷ 0x80 ∷ []) ≡ none
unfolding get_position_length
read_cut = refl

set_longer : set_varint 1 (7 ∷ 5 ∷ 9 ∷ []) 300 ≡ some (7 ∷ 0xac ∷ 0x02 ∷ 9 ∷ [])
unfolding set_varint
set_longer = refl

get_position_length-encode_bytes_example :
    get_position_length 1 (7 ∷ 0xac ∷ 0x02 ∷ 9 ∷ []) ≡ some 300
unfolding encode_bytes
get_position_length-encode_bytes_example = get_position_length-encode_bytes (7 ∷ []) (9 ∷ []) 300
