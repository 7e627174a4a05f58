-- ===== src/Text/Percent.antt =====
-- About percent_decode and the digits of format_base16 (src/util/string.cpp).
use ccache.Prelude.{
  ℕ, ◌+◌, ◌*◌, ◌/◌, ◌%◌, ◌<◌, ◌≡◌, refl, ap, ap₂, ◌∙◌, Bool, true, false, Bool-cases, inl, inr,
  Bytes, [], ◌∷◌, ◌++◌, some, IsBytes, ◌==◌, if◌then◌else◌, arith,
}
use ccache.Decimal.{is_digit}
use ccache.Text.{
  hex_digit, format_base16, is_hex_digit, from_hex, decode_pair, put_decoded, decode_from,
  percent_decode,
}

-- Each byte that is to be escaped as its two digits behind a percent sign, the others as they are.
pub percent_encode : (ℕ → Bool) → Bytes → Bytes
percent_encode escape [] = []
percent_encode escape (b ∷ bytes) =
    let rest = percent_encode escape bytes in
    if escape b then b'%' ∷ (format_base16 (b ∷ []) ++ rest) else b ∷ rest

digit_back : (n : ℕ) → n < 16 → (is_hex_digit (hex_digit n) ≡ true) × (from_hex (hex_digit n) ≡ n)
unfolding is_hex_digit hex_digit from_hex is_digit
digit_back n h = (ground arith, ground arith)

module _ (escape : ℕ → Bool) (percent : escape b'%' ≡ true) where
  escaped_pair :
      (b : ℕ) (s : Bytes) (bytes : Bytes)
      → b < 256
      → decode_from 0 s ≡ some bytes
      → decode_from 0 (b'%' ∷ (format_base16 (b ∷ []) ++ s)) ≡ some (b ∷ bytes)
  unfolding decode_from decode_pair format_base16
  escaped_pair b s bytes h e =
      let (high_is, high) = digit_back (b / 16) (omega arith) in
      let (low_is, low) = digit_back (b % 16) (omega arith) in
      let value : b / 16 * 16 + b % 16 ≡ b = omega arith in
      rw (e, high_is, low_is)
        (ap (λ (n : ℕ). put_decoded (some n) (some bytes))
            (ap₂ (λ (m n : ℕ). m * 16 + n) high low ∙ value)
          ∙ (unfold put_decoded in refl))

  not_percent : (b : ℕ) → escape b ≡ false → (b == b'%') ≡ false
  not_percent b h = elim (Bool-cases (b == b'%')) [
    | inl same ↦ absurd (cc (rw (is_equal b b'%' same) at h))
    | inr other ↦ other
  ]
    where
      is_equal : (a b : ℕ) → (a == b) ≡ true → a ≡ b
      is_equal a b h = ground arith

  -- Bytes that are percent-encoded, at least the percent sign and whichever others are to be
  -- escaped, with the digits that format_base16 gives, are decoded to what they were.
  percent_decode-percent_encode :
      (bytes : Bytes) → IsBytes bytes → percent_decode (percent_encode escape bytes) ≡ some bytes
  unfolding percent_decode percent_encode
  percent_decode-percent_encode [] h = unfold decode_from in refl
  percent_decode-percent_encode (b ∷ bytes) (hb, hbs) = elim (Bool-cases (escape b)) [
    | inl coded ↦ rw coded (
        escaped_pair b (percent_encode escape bytes) bytes hb
          (percent_decode-percent_encode bytes hbs))
    | inr plain ↦ rw plain (
        unfold decode_from put_decoded in
        rw (not_percent b plain, percent_decode-percent_encode bytes hbs) refl)
  ]
