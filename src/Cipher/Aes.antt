-- ===== src/Cipher/Aes.antt =====
-- The class AesCipher of common/utils/AesCipher.py, with UTF-8. A text stands as the list of the codes of
-- its characters, and bytes as a list of numbers. The AES function and base64 are parameters.
use devops_backend.Prelude.{
  ◌+◌, ◌*◌, ◌/◌, ltb, leb, not, ◌&&◌, Bool, ℕ, zero, suc, ◌-◌, ◌%◌, Option, none, some, List, [],
  ◌∷◌, ◌++◌, ◌==◌, number_key, if◌then◌else◌, length,
}
use devops_backend.Outcome.{Result, ok, err, value_error, ◌>>=◌, or_raise, index_error}

-- `n * chr(c)`
unfoldable pub repeated : ℕ → ℕ → List ℕ
repeated zero c = []
repeated (suc n) c = c ∷ repeated n c

-- the padding loop, with fuel
unfoldable pub pad_loop : ℕ → List ℕ → Option (List ℕ)
pad_loop zero data_text = none
pad_loop (suc fuel) data_text =
    let missing = 16 - length data_text % 16 in
    let again = pad_loop fuel (data_text ++ repeated missing missing) in
    if length data_text % 16 == 0 then some data_text else again

unfoldable pub pad : List ℕ → Option (List ℕ)
pad data_text = pad_loop 2 data_text

unfoldable pub last_code : List ℕ → Option ℕ
last_code [] = none
last_code (x ∷ xs) = let rest = last_code xs in elim xs [ [] ↦ some x | _ ∷ _ ↦ rest ]

-- the first `n` characters
unfoldable pub first_codes : ℕ → List ℕ → List ℕ
first_codes zero text = []
first_codes (suc n) [] = []
first_codes (suc n) (x ∷ xs) = x ∷ first_codes n xs

-- `text[:-ord(text[-1])]`: an end of 0 takes nothing, an end beyond the text nothing either
unfoldable pub unpad : List ℕ → Result (List ℕ)
unpad text = or_raise index_error (last_code text) >>= λ c.
    ok (if c == 0 then [] else first_codes (length text - c) text)

-- a character that UTF-8 can encode: no surrogate
unfoldable pub is_scalar : ℕ → Bool
is_scalar c = ltb c 0x110000 && not (leb 0xd800 c && ltb c 0xe000)

unfoldable pub encode_char : ℕ → List ℕ
encode_char c =
    if ltb c 0x80
    then c ∷ []
    else if ltb c 0x800
    then (192 + c / 64) ∷ (128 + c % 64) ∷ []
    else if ltb c 0x10000
    then (224 + c / 4096) ∷ (128 + c / 64 % 64) ∷ (128 + c % 64) ∷ []
    else (240 + c / 262144) ∷ (128 + c / 4096 % 64) ∷ (128 + c / 64 % 64) ∷ (128 + c % 64) ∷ []

-- `str.encode(text)`
unfoldable pub encode : List ℕ → Result (List ℕ)
encode [] = ok []
encode (c ∷ text) =
    encode text >>= λ rest. if is_scalar c then ok (encode_char c ++ rest) else err value_error

-- the character that the bytes gave, if there are no more of it, before the rest
unfoldable pub finish_char : ℕ → ℕ → ℕ → Result (List ℕ) → Result (List ℕ)
finish_char least zero total later =
    if leb least total && is_scalar total
    then (later >>= λ rest. ok (total ∷ rest))
    else err value_error
finish_char least (suc more) total later = later

-- `bytes.decode('utf8')`: `more` bytes of a character are to come, `least` is the smallest character that
-- takes as many bytes, and `sum` is what the bytes so far give
unfoldable pub decode_from : ℕ → ℕ → ℕ → List ℕ → Result (List ℕ)
decode_from zero least sum [] = ok []
decode_from (suc more) least sum [] = err value_error
decode_from zero least sum (b ∷ bytes) =
    let single = decode_from 0 0 0 bytes in
    let two = decode_from 1 0x80 (b - 192) bytes in
    let three = decode_from 2 0x800 (b - 224) bytes in
    let four = decode_from 3 0x10000 (b - 240) bytes in
    if ltb b 128
    then (single >>= λ rest. ok (b ∷ rest))
    else if ltb b 192
    then err value_error
    else if ltb b 224
    then two
    else if ltb b 240
    then three
    else if ltb b 248
    then four
    else err value_error
decode_from (suc more) least sum (b ∷ bytes) =
    let total = sum * 64 + (b - 128) in
    let again = decode_from more least total bytes in
    if leb 128 b && ltb b 192 then finish_char least more total again else err value_error

unfoldable pub decode : List ℕ → Result (List ℕ)
decode bytes = decode_from 0 0 0 bytes

-- the AES function with base64, and its inverse; AES takes whole blocks of sixteen bytes only
pub record Block (C : Type 0) : Type 0 where
  pub seal : List ℕ → C
  pub unseal : C → Result (List ℕ)

unfoldable pub seal_blocks : {C : Type 0} → Block C → List ℕ → Result C
seal_blocks block bytes = if length bytes % 16 == 0 then ok (block.seal bytes) else err value_error

unfoldable pub encrypt : {C : Type 0} → Block C → List ℕ → Option (Result C)
encrypt block data_text = elim (pad data_text) [
  | none ↦ none
  | some padded ↦ some (encode padded >>= λ bytes. seal_blocks block bytes)
]

-- the exceptions keep their class, which the code wraps
unfoldable pub decrypt : {C : Type 0} → Block C → C → Result (List ℕ)
decrypt block cipher_data =
    block.unseal cipher_data >>= λ bytes. decode bytes >>= λ text. unpad text
