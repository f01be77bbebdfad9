-- ===== src/Control/Passing.antt =====
-- How `reader` of an enabled control passes a stream on, piece by piece.
use bee_rpc_over_grpc_py.Prelude.{
  ◌≡◌, refl, sym, ap, ◌∙◌, true, none, List, [], ◌∷◌, ◌++◌, append_assoc,
}
use bee_rpc_over_grpc_py.Varint.{Bytes}
use bee_rpc_over_grpc_py.Wire.{Buffer}
use bee_rpc_over_grpc_py.Control.{
  StreamControl, is_inert, observe, reader, skipped_block_id, forward,
}
use bee_rpc_over_grpc_py.Control.Reader.{request_for, skipped_block_id-request_for, enabled-observe}
use bee_rpc_over_grpc_py.Control.Outgoing.{AllRequests}

module _ (hash_type : Bytes) where
  pub enabled-reader :
      (c : StreamControl) (bs : List Buffer) → (reader hash_type c bs).0.enabled ≡ c.enabled
  unfolding reader
  enabled-reader c [] = refl
  enabled-reader c (b ∷ bs) =
      enabled-reader (observe hash_type c b).0 bs ∙ enabled-observe hash_type c b

  -- A stream in two parts.
  pub reader-append :
      (c : StreamControl) (xs ys : List Buffer)
      → c.enabled ≡ true
      → (reader hash_type c (xs ++ ys)).1
        ≡ (reader hash_type c xs).1 ++ (reader hash_type (reader hash_type c xs).0 ys).1
  unfolding reader
  reader-append c [] ys on = refl
  reader-append c (x ∷ xs) ys on =
      let c' = (observe hash_type c x).0 in
      let seen = (observe hash_type c x).1 in
      simp (on, reader-append c' xs ys (enabled-observe hash_type c x ∙ on))
        (sym (
          append_assoc (forward seen x) (reader hash_type c' xs).1
            (reader hash_type (reader hash_type c' xs).0 ys).1))

  request_for-seen :
      (c : StreamControl) (value : Bytes)
      → c.enabled ≡ true
      → (observe hash_type c (request_for hash_type value)).1 ≡ true
  unfolding observe
  request_for-seen c value on = simp (on, skipped_block_id-request_for hash_type value)

  -- A skip request is not passed on.
  reader-request_for :
      (c : StreamControl) (value : Bytes) (bs : List Buffer)
      → c.enabled ≡ true
      → (reader hash_type c (request_for hash_type value ∷ bs)).1
        ≡ (reader hash_type (observe hash_type c (request_for hash_type value)).0 bs).1
  unfolding reader is_inert
  reader-request_for c value bs on = simp (on, request_for-seen c value on)

  pub reader-AllRequests :
      (c : StreamControl) (bs : List Buffer)
      → c.enabled ≡ true
      → AllRequests hash_type bs
      → (reader hash_type c bs).1 ≡ []
  reader-AllRequests c [] on requests = unfold reader in refl
  reader-AllRequests c (b ∷ bs) on ((value, same), requests) =
      ap (λ x. (reader hash_type c (x ∷ bs)).1) (sym same)
      ∙ reader-request_for c value bs on
      ∙ reader-AllRequests (observe hash_type c (request_for hash_type value)).0 bs
          (enabled-observe hash_type c (request_for hash_type value) ∙ on) requests

  -- A buffer without the field is passed on as it is, and nothing is noted.
  pub reader-payload :
      (c : StreamControl) (b : Buffer) (bs : List Buffer)
      → c.enabled ≡ true
      → b.skip ≡ none
      → (reader hash_type c (b ∷ bs)).1 ≡ b ∷ (reader hash_type c bs).1
  unfolding reader observe skipped_block_id
  reader-payload c b bs on plain = simp (on, plain)
