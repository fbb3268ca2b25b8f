-- ===== src/Mcp/Sizes.antt =====
-- That `bytes` of packages/mcp/src/text.ts is the size of what base64 encodes.
use haikit.Prelude.{
  ℕ, suc, ◌+◌, ◌-◌, ◌*◌, ◌/◌, ◌%◌, ◌≤◌, ◌≡◌, refl, ap, ◌∙◌, false, List, [], ◌∷◌, if◌then◌else◌,
  ltb, ◌==◌, length, drop, arith, Text, lit, ◌=t=◌,
}
use haikit.Mcp.Text.{ends_with, padding, bytes}

-- The base64 alphabet, and the encoding of bytes, with its padding.
abbrev pub digit : ℕ → ℕ
digit v =
    if ltb v 26
    then v + 65
    else if ltb v 52
    then v + 71
    else if ltb v 62
    then v - 4
    else if ltb v 63
    then 43
    else 47

abbrev pub encode : List ℕ → Text
encode [] = []
encode (a ∷ []) = digit (a / 4) ∷ digit (a % 4 * 16) ∷ 61 ∷ 61 ∷ []
encode (a ∷ b ∷ []) = digit (a / 4) ∷ digit (a % 4 * 16 + b / 16) ∷ digit (b % 16 * 4) ∷ 61 ∷ []
encode (a ∷ b ∷ c ∷ rest) =
    digit (a / 4)
    ∷ digit (a % 4 * 16 + b / 16)
    ∷ digit (b % 16 * 4 + c / 64)
    ∷ digit (c % 64)
    ∷ encode rest

-- The places that the last group leaves empty.
abbrev gap : List ℕ → ℕ
gap [] = 0
gap (a ∷ []) = 2
gap (a ∷ b ∷ []) = 1
gap (a ∷ b ∷ c ∷ rest) = gap rest

digit_plain : (v : ℕ) → (digit v == 61) ≡ false
digit_plain v = ground arith

encode-length : (xs : List ℕ) → length (encode xs) * 3 ≡ (length xs + gap xs) * 4
encode-length [] = refl
encode-length (a ∷ []) = refl
encode-length (a ∷ b ∷ []) = refl
encode-length (a ∷ b ∷ c ∷ rest) = omega (arith, encode-length rest)

-- Units in front of enough others change nothing at the end.
ends_later :
    (w x y z : ℕ) (s t : Text)
    → length s ≤ length t
    → ends_with s (w ∷ x ∷ y ∷ z ∷ t) ≡ ends_with s t
unfolding ends_with
ends_later w x y z s t l =
    let counted : length (w ∷ x ∷ y ∷ z ∷ t) - length s
        ≡ suc (suc (suc (suc (length t - length s)))) =
      omega arith in
    ap (λ n. drop n (w ∷ x ∷ y ∷ z ∷ t) =t= s) counted

padding_later : (w x y z : ℕ) (t : Text) → 2 ≤ length t → padding (w ∷ x ∷ y ∷ z ∷ t) ≡ padding t
unfolding padding
padding_later w x y z t l =
    rw (ends_later w x y z (lit "==") t l, ends_later w x y z (lit "=") t (omega arith)) refl

encode_long : (d : ℕ) (rest : List ℕ) → 2 ≤ length (encode (d ∷ rest))
encode_long d [] = omega arith
encode_long d (e ∷ []) = omega arith
encode_long d (e ∷ f ∷ rest) = omega arith

padding-encode : (xs : List ℕ) → padding (encode xs) ≡ gap xs
unfolding padding ends_with ◌=t=◌
padding-encode [] = refl
padding-encode (a ∷ []) = refl
padding-encode (a ∷ b ∷ []) = rw (digit_plain (b % 16 * 4)) refl
padding-encode (a ∷ b ∷ c ∷ []) = rw (digit_plain (b % 16 * 4 + c / 64), digit_plain (c % 64)) refl
padding-encode (a ∷ b ∷ c ∷ d ∷ rest) =
    padding_later (digit (a / 4)) _ _ _ (encode (d ∷ rest)) (encode_long d rest)
    ∙ padding-encode (d ∷ rest)

-- The size that is told of base64 text is the number of the bytes that it encodes, for any bytes.
pub bytes-encode : (xs : List ℕ) → bytes (encode xs) ≡ length xs
unfolding bytes
bytes-encode xs = omega (arith, encode-length xs, padding-encode xs)
