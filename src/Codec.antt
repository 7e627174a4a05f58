-- ===== src/Codec.antt =====
-- Big-endian integers (src/util/conversion.hpp), and the reader and the writer of cache entries
-- (src/core/CacheEntryDataReader.hpp, src/core/CacheEntryDataWriter.hpp).
-- An unsigned integer of `size` bytes is a number; an int8_t or int64_t is held as its bit pattern.
pub mod Integers
pub mod RoundTrip
use ccache.Prelude.{
  ℕ, zero, suc, ◌+◌, ◌-◌, ◌*◌, ◌/◌, ◌%◌, ◌^◌, Bytes, List, [], ◌∷◌, ◌++◌, length, take, drop, ltb,
  Bool, true, false, if◌then◌else◌,
}
use ccache.Fallible.{Result, Error, ok, err, reader_underflow}

-- The loop of int_to_big_endian fills the buffer from its end; `rounds` are left, and `buffer` is
-- the part that is filled.
unfoldable pub int_to_big_endian_loop : ℕ → ℕ → Bytes → Bytes
int_to_big_endian_loop zero value buffer = buffer
int_to_big_endian_loop (suc rounds) value buffer =
    int_to_big_endian_loop rounds (value / 256) ((value % 256) ∷ buffer)

unfoldable pub int_to_big_endian : ℕ → ℕ → Bytes
unfolding int_to_big_endian_loop
int_to_big_endian size value = int_to_big_endian_loop size value []

-- `value <<= 8` keeps `size` bytes, and its low byte is then 0, so `|=` of a byte adds it.
unfoldable pub big_endian_to_int_loop : ℕ → ℕ → Bytes → ℕ
big_endian_to_int_loop size value [] = value
big_endian_to_int_loop size value (b ∷ buffer) =
    big_endian_to_int_loop size ((value * 256) % 256 ^ size + b) buffer

unfoldable pub big_endian_to_int : ℕ → Bytes → ℕ
unfolding big_endian_to_int_loop
big_endian_to_int size buffer = big_endian_to_int_loop size 0 buffer

-- CacheEntryDataWriter: the state is the output buffer.
abbrev pub Writer : Type 0
Writer = Bytes → Bytes

unfoldable pub write_bytes : Bytes → Writer
write_bytes bytes output = output ++ bytes

unfoldable pub write_int : ℕ → ℕ → Writer
write_int size value output = write_bytes (int_to_big_endian size value) output

unfoldable pub write_str : Bytes → Writer
write_str value output = write_bytes value output

-- A loop that writes one item after the other.
unfoldable pub write_each {ℓ} : {A : Type ℓ} → (A → Writer) → List A → Writer
write_each write [] output = output
write_each write (x ∷ xs) output = write_each write xs (write x output)

-- CacheEntryDataReader: the state is `m_data`, the bytes that are not yet read.
abbrev pub Reader {ℓ} : Type ℓ → Type ℓ
Reader A = Bytes → Result (A × Bytes)

abbrev pub continue {ℓ κ} :
    {A : Type ℓ} {B : Type κ} → (A → Reader B) → Result (A × Bytes) → Result (B × Bytes)
continue f (ok (a, rest)) = f a rest
continue f (err e) = err e

infixl 5 ◌>>=◌
abbrev pub ◌>>=◌ {ℓ κ} : {A : Type ℓ} {B : Type κ} → Reader A → (A → Reader B) → Reader B
◌>>=◌ m f bytes = continue f (m bytes)

abbrev pub pure {ℓ} : {A : Type ℓ} → A → Reader A
pure a bytes = ok (a, bytes)

-- A test that throws where it fails.
abbrev pub expect : Bool → Error → Reader (Unit {0})
expect true e bytes = ok (tt, bytes)
expect false e bytes = err e

unfoldable pub read_bytes : ℕ → Reader Bytes
read_bytes size bytes =
    if ltb (length bytes) size
    then err (reader_underflow (size - length bytes))
    else ok (take size bytes, drop size bytes)

unfoldable pub read_str : ℕ → Reader Bytes
read_str size = read_bytes size

unfoldable pub read_int : ℕ → Reader ℕ
read_int size = do buffer ← read_bytes size; pure (big_endian_to_int size buffer)

-- A loop that reads `count` items.
unfoldable pub read_each {ℓ} : {A : Type ℓ} → ℕ → Reader A → Reader (List A)
read_each zero read = pure []
read_each (suc count) read = do x ← read; xs ← read_each count read; pure (x ∷ xs)
