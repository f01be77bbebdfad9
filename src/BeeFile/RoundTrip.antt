-- ===== src/BeeFile/RoundTrip.antt =====
-- Reading a written file, whole and cut.
use mathlib.Core.List.{append-nil}
use bee_rpc_over_grpc_py.Prelude.{
  ℕ, zero, suc, ◌+◌, ◌/◌, ◌%◌, ◌^◌, ◌≤◌, ◌<◌, ◌≡◌, ◌≢◌, refl, ap, ◌∙◌, true, Option, some, List, [],
  ◌∷◌, ◌++◌, length, All, append_assoc, length-append, length-take, take-length-append,
  drop-length-append, ltb, ◌==◌, if◌then◌else◌, arith,
}
use bee_rpc_over_grpc_py.Outcome.{ok, value_error}
use bee_rpc_over_grpc_py.Trace.{Trace, stop, raise, next, ◌then_from◌, then_from_stop}
use bee_rpc_over_grpc_py.Varint.{Bytes}
use bee_rpc_over_grpc_py.Wire.{Buffer}
use bee_rpc_over_grpc_py.BeeFile.{
  from_bytes_big, write_to_file, read_message, read_loop, read_bee_file,
}

-- A generator that yields these buffers and ends.
abbrev pub yields : List Buffer → Trace Buffer
yields [] = stop
yields (b ∷ bs) = next b (yields bs)

-- The four bytes of a size below 2 ^ 32 give it back.
size_back :
    (n : ℕ)
    → n < 2 ^ 32
    → from_bytes_big 0 ((n / 2 ^ 24) ∷ (n / 2 ^ 16 % 256) ∷ (n / 2 ^ 8 % 256) ∷ (n % 256) ∷ []) ≡ n
size_back n h = omega arith

module _ (serialize : Buffer → Bytes) (parse : Bytes → Option Buffer) where
  -- The size of the message has four bytes, and the message parses back.
  abbrev pub Fits : Buffer → Type 0
  Fits b = (length (serialize b) < 2 ^ 32) × (parse (serialize b) ≡ some b)

  -- The size and the message, as they stand in the file.
  abbrev pub record_of : Buffer → Bytes
  record_of b =
      let n = length (serialize b) in
      (n / 2 ^ 24) ∷ (n / 2 ^ 16 % 256) ∷ (n / 2 ^ 8 % 256) ∷ (n % 256) ∷ serialize b

  abbrev pub records : List Buffer → Bytes
  records [] = []
  records (b ∷ bs) = record_of b ++ records bs

  written :
      (bs : List Buffer) → All Fits bs → write_to_file serialize (yields bs) ≡ (records bs, ok tt)
  unfolding write_to_file
  written [] h = refl
  written (b ∷ bs) h = rw (lt→true (length (serialize b)) h.0.0, written bs h.1)
    where
      lt→true : (n : ℕ) → n < 2 ^ 32 → ltb n (2 ^ 32) ≡ true
      lt→true n p = ground arith

  read_record :
      (fuel : ℕ) (b : Buffer) (rest : Bytes)
      → Fits b
      → read_loop parse (suc fuel) (record_of b ++ rest) ≡ next b (read_loop parse fuel rest)
  unfolding read_loop
  read_record fuel b rest h = rw (size_back (length (serialize b)) h.0) (
      rw (take-length-append (serialize b) rest, drop-length-append (serialize b) rest, h.1)
        (same (length (serialize b))))
    where
      same :
          (n : ℕ)
          → (if n == n then next b (read_loop parse fuel rest) else raise value_error)
            ≡ next b (read_loop parse fuel rest)
      same n = ground arith

  read_records :
      (fuel : ℕ) (bs : List Buffer) (tail : Bytes)
      → All Fits bs
      → length (records bs) + length tail ≤ fuel
      → (left : ℕ) × (length tail ≤ left)
        × (read_loop parse fuel (records bs ++ tail)
            ≡ yields bs then_from read_loop parse left tail)
  read_records fuel [] tail h le = (fuel, omega arith, refl)
  read_records zero (b ∷ bs) tail h le = absurd (omega arith)
  read_records (suc fuel) (b ∷ bs) tail h le =
      let (left, p, q) =
        read_records fuel bs tail h.1 (omega (arith, length-append (serialize b) (records bs))) in
      (
        left,
        p,
        rw (append_assoc (serialize b) (records bs) tail)
            (read_record fuel b (records bs ++ tail) h.0 ∙ ap (λ t. next b t) q),
      )

  -- A file that `write_to_file` wrote is read back as the buffers that were written, in their order,
  -- and its reader ends without an error, provided each serialized buffer is
  -- shorter than 2 ^ 32 and parses back.
  pub read_bee_file-write_to_file :
      (bs : List Buffer)
      → All Fits bs
      → read_bee_file parse (write_to_file serialize (yields bs)).0 ≡ yields bs
  unfolding read_bee_file
  read_bee_file-write_to_file bs h =
      let content = records bs in
      let (left, p, q) = read_records (length content) bs [] h (omega arith) in
      rw (written bs h)
        (rw (append-nil content) at q ∙ (unfold read_loop in then_from_stop (yields bs)))

  cut_message :
      (content : Bytes) (size : ℕ) (rest : Trace Buffer)
      → length content < size
      → read_message parse size content rest ≡ raise value_error
  cut_message content size rest lt = ground (arith, length-take size content)

  cut_record :
      (left : ℕ) (b : Buffer) (front back : Bytes)
      → Fits b
      → front ≢ []
      → back ≢ []
      → record_of b ≡ front ++ back
      → read_loop parse left front ≡ raise value_error
  unfolding read_loop
  cut_record left b [] back h f g e = absurd (f refl)
  cut_record zero b (x ∷ front) back h f g e = refl
  cut_record (suc left) b (x ∷ []) back h f g e = refl
  cut_record (suc left) b (x ∷ y ∷ []) back h f g e = refl
  cut_record (suc left) b (x ∷ y ∷ z ∷ []) back h f g e = refl
  cut_record (suc left) b (x ∷ y ∷ z ∷ w ∷ front) back h f g e = cut_message front _ _ shorter
    where
      n : ℕ
      n = length (serialize b)

      same_bytes :
          (p q r s : ℕ)
          → p ≡ x
          → q ≡ y
          → r ≡ z
          → s ≡ w
          → from_bytes_big 0 (p ∷ q ∷ r ∷ s ∷ []) ≡ from_bytes_big 0 (x ∷ y ∷ z ∷ w ∷ [])
      same_bytes p q r s i j k l = rw (i, j, k, l)

      nonempty-length : (l : Bytes) → l ≢ [] → 0 < length l
      nonempty-length [] h = absurd (h refl)
      nonempty-length (c ∷ cs) h = omega arith

      message : serialize b ≡ front ++ back
      message = cc

      shorter : length front < from_bytes_big 0 (x ∷ y ∷ z ∷ w ∷ [])
      shorter = omega (
        arith,
        same_bytes (n / 2 ^ 24) (n / 2 ^ 16 % 256) (n / 2 ^ 8 % 256) (n % 256) (cc) (cc) (cc) (cc),
        size_back n h.0,
        ap length message,
        length-append front back,
        nonempty-length back g,
      )

  -- A file that was cut inside a record, in its size or in its message, where each buffer is shorter
  -- than 2 ^ 32 and parses back: the buffers before it are
  -- yielded as they were written, and then the reader raises ValueError.
  pub read_bee_file_cut :
      (bs : List Buffer) (b : Buffer) (front back : Bytes)
      → All Fits bs
      → Fits b
      → front ≢ []
      → back ≢ []
      → record_of b ≡ front ++ back
      → read_bee_file parse (records bs ++ front) ≡ yields bs then_from raise value_error
  unfolding read_bee_file
  read_bee_file_cut bs b front back h k f g e =
      let (left, p, q) =
        read_records (length (records bs ++ front)) bs front h
          (omega (arith, length-append (records bs) front)) in
      q ∙ ap (λ t. yields bs then_from t) (cut_record left b front back k f g e)
