-- ===== src/Gendb/Encoding/Tests.antt =====
-- The encodings at concrete input.
use signal2sip.Base.{◌≡◌, some, refl, arith, All, Bytes, IsByte, codes}
use signal2sip.Gendb.Encoding.RoundTrip.{url_decode, url_decode-encode}
use signal2sip.Gendb.Encoding.{drop_end, is_alnum, is_unreserved, url_encode}

abbrev uuid : Bytes
uuid = codes "a b/c+~"

escaped : url_encode uuid ≡ codes "a%20b%2Fc%2B~"
unfolding url_encode is_unreserved is_alnum
escaped = refl

unpadded : drop_end 61 (codes "QQ==") ≡ codes "QQ"
unfolding drop_end
unpadded = refl

uuid-IsByte : All IsByte uuid
uuid-IsByte = omega arith

url_decode-encode_example : url_decode (url_encode uuid) ≡ some uuid
url_decode-encode_example = url_decode-encode uuid uuid-IsByte
