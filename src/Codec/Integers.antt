-- ===== src/Codec/Integers.antt =====
-- About int_to_big_endian and big_endian_to_int (src/util/conversion.hpp).
use native.Mathlib.Nat.{pow-suc, mod-eq_of_lt}
use ccache.Prelude.{
  ℕ, zero, suc, ◌+◌, ◌*◌, ◌/◌, ◌%◌, ◌^◌, ◌≤◌, ◌<◌, ◌≡◌, refl, ◌∙◌, Bytes, [], ◌∷◌, ◌++◌, append-nil,
  length, arith, IsBytes,
}
use ccache.Codec.{
  int_to_big_endian_loop, int_to_big_endian, big_endian_to_int_loop, big_endian_to_int,
}

-- The number that big-endian digits spell behind `value`, with no bound.
abbrev spell : ℕ → Bytes → ℕ
spell value [] = value
spell value (b ∷ buffer) = spell (value * 256 + b) buffer

length-loop :
    (rounds value : ℕ) (buffer : Bytes)
    → length (int_to_big_endian_loop rounds value buffer) ≡ rounds + length buffer
unfolding int_to_big_endian_loop
length-loop zero value buffer = omega arith
length-loop (suc rounds) value buffer =
    omega (arith, length-loop rounds (value / 256) ((value % 256) ∷ buffer))

pub length-int_to_big_endian : (size value : ℕ) → length (int_to_big_endian size value) ≡ size
unfolding int_to_big_endian
length-int_to_big_endian size value = omega (arith, length-loop size value [])

loop-IsBytes :
    (rounds value : ℕ) (buffer : Bytes)
    → IsBytes buffer
    → IsBytes (int_to_big_endian_loop rounds value buffer)
unfolding int_to_big_endian_loop
loop-IsBytes zero value buffer h = h
loop-IsBytes (suc rounds) value buffer h =
    loop-IsBytes rounds (value / 256) ((value % 256) ∷ buffer) (omega arith, h)

pub int_to_big_endian-IsBytes : (size value : ℕ) → IsBytes (int_to_big_endian size value)
unfolding int_to_big_endian
int_to_big_endian-IsBytes size value = loop-IsBytes size value [] tt

spell-loop :
    (rounds value : ℕ) (buffer : Bytes)
    → value < 256 ^ rounds
    → spell 0 (int_to_big_endian_loop rounds value buffer) ≡ spell value buffer
unfolding int_to_big_endian_loop
spell-loop zero value buffer h = let e : value ≡ 0 = omega arith in rw e
spell-loop (suc rounds) value buffer h =
    spell-loop rounds (value / 256) ((value % 256) ∷ buffer) (omega (arith, pow-suc 256 rounds))
    ∙ (let e : value / 256 * 256 + value % 256 ≡ value = omega arith in rw e)

-- Adding digits one by one: what fits behind `value` keeps below the modulus.
room_step :
    (value b power m : ℕ)
    → b < 256
    → 1 ≤ power
    → (value + 1) * (power * 256) ≤ m
    → (value * 256 + b + 1) * power ≤ m
room_step value b power m hb hp h = grind arith

room_shift : (value power m : ℕ) → 1 ≤ power → (value + 1) * (power * 256) ≤ m → value * 256 < m
room_shift value power m hp h = grind arith

pow_pos : (n : ℕ) → 1 ≤ 256 ^ n
pow_pos zero = omega arith
pow_pos (suc n) = omega (arith, pow-suc 256 n, pow_pos n)

-- No round of the reading loop wraps around while the digits fit the integer's size.
loop-spell :
    (size value : ℕ) (buffer : Bytes)
    → IsBytes buffer
    → (value + 1) * 256 ^ length buffer ≤ 256 ^ size
    → big_endian_to_int_loop size value buffer ≡ spell value buffer
unfolding big_endian_to_int_loop
loop-spell size value [] hb h = refl
loop-spell size value (b ∷ buffer) (hb, hbs) h =
    rw (mod-eq_of_lt (room_shift value (256 ^ length buffer) _ (pow_pos (length buffer)) room)) (
      loop-spell size (value * 256 + b) buffer hbs
        (room_step value b (256 ^ length buffer) _ hb (pow_pos (length buffer)) room))
  where
    room : (value + 1) * (256 ^ length buffer * 256) ≤ 256 ^ size
    room = rw (← pow-suc) h

-- A number that fits the bytes is read back from its big-endian bytes.
pub big_endian_to_int-int_to_big_endian :
    (size value : ℕ)
    → value < 256 ^ size
    → big_endian_to_int size (int_to_big_endian size value) ≡ value
unfolding big_endian_to_int int_to_big_endian
big_endian_to_int-int_to_big_endian size value h =
    loop-spell size 0 _ (loop-IsBytes size value [] tt) (
      let e : length (int_to_big_endian_loop size value []) ≡ size =
        omega (arith, length-loop size value []) in
      rw e (omega arith))
    ∙ spell-loop size value [] h

-- The other direction: a buffer is what its number is written as.
loop_undoes-spell :
    (buffer : Bytes) (value k rounds : ℕ) (rest : Bytes)
    → IsBytes buffer
    → rounds ≡ length buffer + k
    → int_to_big_endian_loop rounds (spell value buffer) rest
      ≡ int_to_big_endian_loop k value (buffer ++ rest)
loop_undoes-spell [] value k rounds rest hb e = let e' : rounds ≡ k = omega arith in rw e'
loop_undoes-spell (b ∷ buffer) value k rounds rest (hb, hbs) e =
    loop_undoes-spell buffer (value * 256 + b) (suc k) rounds rest hbs (omega arith)
    ∙ (unfold int_to_big_endian_loop in
        let p : (value * 256 + b) / 256 ≡ value = omega arith in
        let q : (value * 256 + b) % 256 ≡ b = omega arith in rw (p, q))

-- Bytes that are read as a big-endian number are the bytes of that number.
pub int_to_big_endian-big_endian_to_int :
    (buffer : Bytes)
    → IsBytes buffer
    → int_to_big_endian (length buffer) (big_endian_to_int (length buffer) buffer) ≡ buffer
unfolding big_endian_to_int int_to_big_endian
int_to_big_endian-big_endian_to_int buffer h =
    rw (loop-spell (length buffer) 0 buffer h (omega arith)) (
      loop_undoes-spell buffer 0 0 (length buffer) [] h (omega arith)
      ∙ (unfold int_to_big_endian_loop in append-nil buffer))

spell-lt :
    (buffer : Bytes) (value bound : ℕ)
    → IsBytes buffer
    → value < bound
    → spell value buffer < bound * 256 ^ length buffer
spell-lt [] value bound hb h = omega arith
spell-lt (b ∷ buffer) value bound (hb, hbs) h =
    let h' : spell (value * 256 + b) buffer < bound * 256 * 256 ^ length buffer =
      spell-lt buffer (value * 256 + b) (bound * 256) hbs (omega arith) in
    rw pow-suc (omega (arith, h'))

-- A number that is read fits its size.
pub big_endian_to_int-lt :
    (buffer : Bytes)
    → IsBytes buffer
    → big_endian_to_int (length buffer) buffer < 256 ^ length buffer
unfolding big_endian_to_int
big_endian_to_int-lt buffer h =
    rw (loop-spell (length buffer) 0 buffer h (omega arith))
      (omega (arith, spell-lt buffer 0 1 h (omega arith)))
