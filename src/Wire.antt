-- ===== src/Wire.antt =====
-- The messages of src/bee_rpc/buffer.proto, with `HasField` as `Option`. Of `Head` the index is kept:
-- no code of the package that is not deprecated reads the partitions.
use bee_rpc_over_grpc_py.Prelude.{ℕ, Bool, true, false, Option, none, some, List, []}
use bee_rpc_over_grpc_py.Varint.{Bytes}

pub record Hash : Type 0 where
  pub type : Bytes
  pub value : Bytes

pub record Block : Type 0 where
  pub hashes : List Hash
  pub previous_lengths_position : List ℕ

pub record Buffer : Type 0 where
  pub chunk : Option Bytes
  pub separator : Option Bool
  pub signal : Option Bool
  pub head : Option ℕ
  pub block : Option Block
  pub skip : Option Block

abbrev pub empty_buffer : Buffer
empty_buffer = record {
  chunk = none;
  separator = none;
  signal = none;
  head = none;
  block = none;
  skip = none;
}

-- `HasField`
abbrev pub has {ℓ} : {A : Type ℓ} → Option A → Bool
has none = false
has (some a) = true

-- Reading a field that is not set gives its default.
abbrev pub chunk_of : Option Bytes → Bytes
chunk_of none = []
chunk_of (some c) = c

-- `HasField(f) and f` on a boolean field.
abbrev pub is_set : Option Bool → Bool
is_set none = false
is_set (some b) = b

-- Python's truth of a byte string or a text.
abbrev pub nonempty {ℓ} : {A : Type ℓ} → List A → Bool
nonempty [] = false
nonempty _ = true
