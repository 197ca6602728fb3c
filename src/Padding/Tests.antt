-- ===== src/Padding/Tests.antt =====
-- Runs of signal/Padding.cpp, and its theorems at concrete input.
use signal2sip.Base.{◌≡◌, refl, [], ◌∷◌, length, Bytes}
use signal2sip.Padding.{
  pad_message_body, padded_message_length, copy, strip_from, strip_padding_message_body,
}
use signal2sip.Padding.RoundTrip.{strip_padding-pad}

abbrev body : Bytes
body = 7 ∷ 0x80 ∷ 0 ∷ []

short_length : length (pad_message_body body) ≡ 79
unfolding pad_message_body padded_message_length copy
short_length = refl

untouched : strip_padding_message_body (1 ∷ 0x80 ∷ 2 ∷ 0 ∷ []) ≡ 1 ∷ 0x80 ∷ 2 ∷ 0 ∷ []
unfolding strip_padding_message_body strip_from
untouched = refl

strip_padding-pad_example : strip_padding_message_body (pad_message_body body) ≡ body
strip_padding-pad_example = strip_padding-pad body
