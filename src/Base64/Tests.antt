-- ===== src/Base64/Tests.antt =====
-- Runs of util/Base64.cpp, and its theorems at concrete input.
use signal2sip.Base.{◌≡◌, refl, [], ◌∷◌, arith, codes}
use signal2sip.Base64.{
  base64_encode, base64_decode, char_of, value_of, decode_loop, decode_char, absorb,
}
use signal2sip.Base64.RoundTrip.{base64_decode-base64_encode}

encode_many : base64_encode (codes "Many") ≡ codes "TWFueQ=="
unfolding base64_encode char_of
encode_many = refl

decode_many : base64_decode (codes "TWF ueQ==") ≡ codes "Many"
unfolding base64_decode decode_loop decode_char absorb value_of
decode_many = refl

base64_decode-base64_encode_example :
    base64_decode (base64_encode (0 ∷ 255 ∷ 128 ∷ 7 ∷ [])) ≡ 0 ∷ 255 ∷ 128 ∷ 7 ∷ []
base64_decode-base64_encode_example =
    base64_decode-base64_encode (0 ∷ 255 ∷ 128 ∷ 7 ∷ []) (omega arith)
