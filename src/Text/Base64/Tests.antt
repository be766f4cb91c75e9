-- ===== src/Text/Base64/Tests.antt =====
-- `base64Encode` of src/main/c/internal/Base64.cpp on the examples of RFC 4648.
use seasocks.Prelude.{◌≡◌, refl, codes, arith}
use seasocks.Text.Base64.{
  cb64, char0, char1, char2, char3, base64_encode, base64_decode, base64_decode-base64_encode,
}

encode_fooba : base64_encode (codes "fooba") ≡ codes "Zm9vYmE="
unfolding base64_encode char0 char1 char2 char3 cb64
encode_fooba = refl

base64_decode-base64_encode_example : base64_decode (base64_encode (codes "foob")) ≡ codes "foob"
base64_decode-base64_encode_example = base64_decode-base64_encode (codes "foob") (omega arith)
