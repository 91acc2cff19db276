-- ===== src/Cipher/Tests.antt =====
-- A cipher that keeps the text, a short text and one of sixteen characters.
use devops_backend.Prelude.{◌%◌, ◌≢◌, ◌⊎◌, length, ℕ, ◌≡◌, refl, some, List, [], ◌∷◌, arith}
use devops_backend.Outcome.{ok, err, value_error}
use devops_backend.Cipher.Aes.{
  encode, Block, unpad, last_code, first_codes, encrypt, decrypt, decode, decode_from, pad,
  pad_loop, repeated, is_scalar, seal_blocks, encode_char,
}
use devops_backend.Cipher.Padding.{decrypt-encrypt}

abbrev plain : Block (List ℕ)
plain = record { seal = λ xs. xs; unseal = λ xs. ok xs }

abbrev short : List ℕ
short = 112 ∷ 97 ∷ 115 ∷ 115 ∷ []

abbrev fifteen : List ℕ
fifteen = 1 ∷ 2 ∷ 3 ∷ 4 ∷ 5 ∷ 6 ∷ 7 ∷ 8 ∷ 9 ∷ 10 ∷ 11 ∷ 12 ∷ 13 ∷ 14 ∷ 3 ∷ []

-- the last character is taken for a count of 3
cut : decrypt plain (65 ∷ fifteen) ≡ ok (65 ∷ 1 ∷ 2 ∷ 3 ∷ 4 ∷ 5 ∷ 6 ∷ 7 ∷ 8 ∷ 9 ∷ 10 ∷ 11 ∷ 12 ∷ [])
unfolding decrypt unpad last_code first_codes decode decode_from
cut = refl

-- one character of three bytes
secret_fails : encrypt plain (0x5bc6 ∷ []) ≡ some (err value_error)
unfolding encrypt pad pad_loop repeated encode is_scalar seal_blocks encode_char
secret_fails = refl

encoded_secret : encode (0x5bc6 ∷ []) ≡ ok (0xe5 ∷ 0xaf ∷ 0x86 ∷ [])
unfolding encode is_scalar encode_char
encoded_secret = refl

encoded_short : encode short ≡ ok short
unfolding encode is_scalar encode_char
encoded_short = refl

decrypt-encrypt_example :
    ((length short % 16 ≡ length short % 16)
      × ((c : List ℕ) × (encrypt plain short ≡ some (ok c)) × (decrypt plain c ≡ ok short)))
    ⊎ ((length short % 16 ≢ length short % 16) × (encrypt plain short ≡ some (err value_error)))
decrypt-encrypt_example =
    decrypt-encrypt plain short short (λ xs whole. refl) encoded_short (ground arith)
