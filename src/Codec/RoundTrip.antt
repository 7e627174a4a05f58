-- ===== src/Codec/RoundTrip.antt =====
-- About what the reader of cache entries makes of what the writer has written
-- (src/core/CacheEntryDataReader.hpp, src/core/CacheEntryDataWriter.hpp).
use mathlib.Core.Path.{subst₂}
use ccache.Prelude.{
  ◌+◌, ℕ, zero, suc, ◌^◌, ◌≤◌, ◌<◌, ◌≡◌, refl, ◌∙◌, ap, ap₂, sym, Bytes, List, [], ◌∷◌, ◌++◌,
  append_assoc, append-nil, length, take, drop, take-append, drop-append, length-append,
  take-append-drop, length-take, All, IsBytes, arith, ltb, le→not_ltb, not_ltb→le, true, false,
  Bool, true, false, Bool-cases, inl, inr,
}
use ccache.Fallible.{Result, Error, ok, err}
use ccache.Codec.{
  int_to_big_endian, big_endian_to_int, Writer, Reader, write_each, read_bytes, read_str, read_int,
  read_each, continue, expect,
}
use ccache.Codec.Integers.{
  length-int_to_big_endian, big_endian_to_int-int_to_big_endian, big_endian_to_int-lt,
  int_to_big_endian-big_endian_to_int,
}

-- The bytes of `count` items, one after the other.
abbrev pub concat_map {ℓ} : {A : Type ℓ} → (A → Bytes) → List A → Bytes
concat_map f [] = []
concat_map f (x ∷ xs) = f x ++ concat_map f xs

-- One step of a `do` block.
pub step {ℓ κ} :
    {A : Type ℓ} {B : Type κ} (f : A → Reader B) {r : Result (A × Bytes)} {a : A} {rest : Bytes}
    → r ≡ ok (a, rest)
    → continue f r ≡ f a rest
step f e = ap (continue f) e

-- What came before, where a `do` block has succeeded.
pub step_inversion {ℓ κ} :
    {A : Type ℓ} {B : Type κ} (f : A → Reader B) (r : Result (A × Bytes)) {b : B} {rest : Bytes}
    → continue f r ≡ ok (b, rest)
    → (a : A) × (mid : Bytes) × (r ≡ ok (a, mid)) × (f a mid ≡ ok (b, rest))
step_inversion f (ok (a, mid)) h = (a, mid, refl, h)
step_inversion f (err e) h = absurd (cc h)

pub pure_inversion {ℓ} :
    {A : Type ℓ} {a b : A} {mid rest : Bytes}
    → ◌≡◌ {A = Result (A × Bytes)} (ok (a, mid)) (ok (b, rest))
    → (a ≡ b) × (mid ≡ rest)
pure_inversion h = (cc, cc)

abbrev pub total {ℓ} : {A : Type ℓ} → (A → ℕ) → List A → ℕ
total size [] = 0
total size (x ∷ xs) = size x + total size xs

pub read_bytes-append :
    (s rest : Bytes) (size : ℕ) → length s ≡ size → read_bytes size (s ++ rest) ≡ ok (s, rest)
unfolding read_bytes
read_bytes-append s rest size e = rw (← e) (
    rw (le→not_ltb (length (s ++ rest)) (length s) (omega (arith, length-append s rest)))
      (rw (take-append s rest, drop-append s rest)))

pub read_str-append : (s rest : Bytes) → read_str (length s) (s ++ rest) ≡ ok (s, rest)
unfolding read_str
read_str-append s rest = read_bytes-append s rest (length s) refl

pub expect-true : (b : Bool) (e : Error) (rest : Bytes) → b ≡ true → expect b e rest ≡ ok (tt, rest)
expect-true true e rest h = refl
expect-true false e rest h = cc

pub read_str_of_length :
    (s rest : Bytes) (size : ℕ) → length s ≡ size → read_str size (s ++ rest) ≡ ok (s, rest)
unfolding read_str
read_str_of_length s rest size e = read_bytes-append s rest size e

pub read_int-append :
    (size value : ℕ) (rest : Bytes)
    → value < 256 ^ size
    → read_int size (int_to_big_endian size value ++ rest) ≡ ok (value, rest)
unfolding read_int
read_int-append size value rest h =
    step _ (
      read_bytes-append (int_to_big_endian size value) rest size
        (length-int_to_big_endian size value))
    ∙ ap (λ (n : ℕ). ok (n, rest)) (big_endian_to_int-int_to_big_endian size value h)

-- A loop of reads undoes a loop of writes, item by item.
pub read_each-append {ℓ κ} :
    {A : Type ℓ} (Fits : A → Type κ) (write : A → Bytes) (read : Reader A)
    → ((a : A) (rest : Bytes) → Fits a → read (write a ++ rest) ≡ ok (a, rest))
    → (xs : List A) (rest : Bytes) → All Fits xs
    → read_each (length xs) read (concat_map write xs ++ rest) ≡ ok (xs, rest)
unfolding read_each
read_each-append Fits write read one [] rest h = refl
read_each-append Fits write read one (x ∷ xs) rest (h, hs) = rw append_assoc (
    step _ (one x (concat_map write xs ++ rest) h)
    ∙ step _ (read_each-append Fits write read one xs rest hs))

pub each_of_length {ℓ κ} :
    {A : Type ℓ} (Fits : A → Type κ) (write : A → Bytes) (read : Reader A)
    → ((a : A) (rest : Bytes) → Fits a → read (write a ++ rest) ≡ ok (a, rest))
    → (xs : List A) (rest : Bytes) (count : ℕ) → length xs ≡ count
    → All Fits xs
    → read_each count read (concat_map write xs ++ rest) ≡ ok (xs, rest)
each_of_length Fits write read one xs rest count e h =
    rw (← e) (read_each-append Fits write read one xs rest h)

pub length-concat_map {ℓ} :
    {A : Type ℓ} (f : A → Bytes) (size : A → ℕ)
    → ((a : A) → length (f a) ≡ size a)
    → (xs : List A) → length (concat_map f xs) ≡ total size xs
length-concat_map f size one [] = refl
length-concat_map f size one (x ∷ xs) =
    omega (arith, length-append (f x) (concat_map f xs), one x, length-concat_map f size one xs)

pub write_each-concat_map {ℓ} :
    {A : Type ℓ} (write : A → Writer) (bytes : A → Bytes)
    → ((a : A) (output : Bytes) → write a output ≡ output ++ bytes a)
    → (xs : List A) (output : Bytes) → write_each write xs output ≡ output ++ concat_map bytes xs
unfolding write_each
write_each-concat_map write bytes one [] output = rw append-nil
write_each-concat_map write bytes one (x ∷ xs) output = rw (one x output) (
    write_each-concat_map write bytes one xs (output ++ bytes x)
    ∙ append_assoc output (bytes x) (concat_map bytes xs))

take_inversion :
    (size : ℕ) (bytes s rest : Bytes)
    → size ≤ length bytes
    → ◌≡◌ {A = Result (Bytes × Bytes)} (ok (take size bytes, drop size bytes)) (ok (s, rest))
    → (bytes ≡ s ++ rest) × (length s ≡ size)
take_inversion size bytes s rest fits h =
    let p : take size bytes ≡ s = cc in
    let q : drop size bytes ≡ rest = cc in
    (rw (← p, ← q) (sym (take-append-drop size bytes)), rw (← p) (length-take size bytes fits))

-- A successful read takes exactly `size` bytes off the front.
pub read_bytes_inversion :
    (size : ℕ) (bytes s rest : Bytes)
    → read_bytes size bytes ≡ ok (s, rest)
    → (bytes ≡ s ++ rest) × (length s ≡ size)
unfolding read_bytes
read_bytes_inversion size bytes s rest h = elim (Bool-cases (ltb (length bytes) size)) [
  | inl short ↦ absurd (cc (rw short at h))
  | inr enough ↦ take_inversion size bytes s rest (not_ltb→le _ _ enough) (rw enough at h)
]

IsBytes-take : (n : ℕ) (bytes : Bytes) → IsBytes bytes → IsBytes (take n bytes)
IsBytes-take zero bytes h = tt
IsBytes-take (suc n) [] h = tt
IsBytes-take (suc n) (b ∷ bytes) (hb, hbs) = (hb, IsBytes-take n bytes hbs)

IsBytes-drop : (n : ℕ) (bytes : Bytes) → IsBytes bytes → IsBytes (drop n bytes)
IsBytes-drop zero bytes h = h
IsBytes-drop (suc n) [] h = tt
IsBytes-drop (suc n) (b ∷ bytes) (hb, hbs) = IsBytes-drop n bytes hbs

pub read_bytes-IsBytes :
    (size : ℕ) (bytes s rest : Bytes)
    → IsBytes bytes
    → read_bytes size bytes ≡ ok (s, rest)
    → IsBytes s × IsBytes rest
unfolding read_bytes
read_bytes-IsBytes size bytes s rest hb h = elim (Bool-cases (ltb (length bytes) size)) [
  | inl short ↦ absurd (cc (rw short at h))
  | inr enough ↦
      let e : ◌≡◌ {A = Result (Bytes × Bytes)} (ok (take size bytes, drop size bytes))
          (ok (s, rest)) =
        rw enough at h in
      let p : take size bytes ≡ s = cc in
      let q : drop size bytes ≡ rest = cc in
      (rw p at (IsBytes-take size bytes hb), rw q at (IsBytes-drop size bytes hb))
]

-- A successful read of an integer has consumed the bytes that the writer would write for it.
pub read_int_inversion :
    (size : ℕ) (bytes : Bytes) (value : ℕ) (rest : Bytes)
    → IsBytes bytes
    → read_int size bytes ≡ ok (value, rest)
    → (bytes ≡ int_to_big_endian size value ++ rest) × (value < 256 ^ size) × IsBytes rest
unfolding read_int
read_int_inversion size bytes value rest hb h =
    let (buffer, mid, read, done) = step_inversion _ (read_bytes size bytes) h in
    let (p, q) = pure_inversion done in
    let (split, len) = read_bytes_inversion size bytes buffer mid read in
    let (hbuf, hmid) = read_bytes-IsBytes size bytes buffer mid hb read in
    (
      split ∙ ap₂ (λ (s t : Bytes). s ++ t) (rw (← p) (written buffer size len hbuf)) q,
      rw (← p, ← len) (big_endian_to_int-lt buffer hbuf),
      rw q at hmid,
    )
  where
    written :
        (buffer : Bytes) (n : ℕ)
        → length buffer ≡ n
        → IsBytes buffer
        → buffer ≡ int_to_big_endian n (big_endian_to_int n buffer)
    written buffer n e h' = rw (← e) (sym (int_to_big_endian-big_endian_to_int buffer h'))

-- What holds of every successful result. The rules below follow a `do` block step by step.
abbrev pub Post {ℓ κ} : {B : Type ℓ} → (B → Bytes → Type κ) → Result (B × Bytes) → Type (ℓ ⊔ κ)
Post {B} P r = (b : B) (rest : Bytes) → r ≡ ok (b, rest) → P b rest

module _ {ℓ κ} {B : Type ℓ} (P : B → Bytes → Type κ) where
  pub int_step :
      (f : ℕ → Reader B) (size : ℕ) (bytes : Bytes)
      → IsBytes bytes
      → ((value : ℕ) (mid : Bytes)
          → bytes ≡ int_to_big_endian size value ++ mid
          → value < 256 ^ size
          → IsBytes mid
          → Post P (f value mid))
      → Post P (continue f (read_int size bytes))
  int_step f size bytes hb k b rest h =
      let (value, mid, read, done) = step_inversion f (read_int size bytes) h in
      let (split, fits, hmid) = read_int_inversion size bytes value mid hb read in
      k value mid split fits hmid b rest done

  pub str_step :
      (f : Bytes → Reader B) (size : ℕ) (bytes : Bytes)
      → IsBytes bytes
      → ((s mid : Bytes) → bytes ≡ s ++ mid → length s ≡ size → IsBytes mid → Post P (f s mid))
      → Post P (continue f (read_str size bytes))
  unfolding read_str
  str_step f size bytes hb k b rest h =
      let (s, mid, read, done) = step_inversion f (read_bytes size bytes) h in
      let (split, len) = read_bytes_inversion size bytes s mid read in
      k s mid split len (read_bytes-IsBytes size bytes s mid hb read).1 b rest done

  pub expect_step :
      (f : Unit {0} → Reader B) (test : Bool) (e : Error) (bytes : Bytes)
      → (test ≡ true → Post P (f tt bytes))
      → Post P (continue f (expect test e bytes))
  expect_step f true e bytes k b rest h = k refl b rest h
  expect_step f false e bytes k b rest h = absurd (cc h)

  pub pure_step : (b : B) (rest : Bytes) → P b rest → Post P (ok (b, rest))
  pure_step b rest h b' rest' e = let (p, q) = pure_inversion e in subst₂ P p q h
