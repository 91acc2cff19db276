-- ===== src/Cipher/Utf.antt =====
-- UTF-8, as common/utils/AesCipher.py uses it: what is encoded is decoded again.
use devops_backend.Prelude.{
  ℕ, suc, ◌+◌, ◌-◌, ◌*◌, ◌/◌, ◌%◌, ◌<◌, ◌≡◌, refl, ap, ◌∙◌, subst, inl, inr, true, false, List, [],
  ◌∷◌, ◌++◌, ltb, leb, ◌&&◌, arith, Bool-cases,
}
use devops_backend.Outcome.{Result, ok, ◌>>=◌, Result-cases}
use devops_backend.Cipher.Aes.{is_scalar, encode_char, encode, finish_char, decode_from, decode}

-- a byte of the middle or the end of a character
decode_from-next :
    (more least sum d : ℕ) (bytes : List ℕ)
    → d < 64
    → decode_from (suc more) least sum ((128 + d) ∷ bytes)
      ≡ finish_char least more (sum * 64 + d) (decode_from more least (sum * 64 + d) bytes)
unfolding decode_from
decode_from-next more least sum d bytes small =
    let inside : (leb 128 (128 + d) && ltb (128 + d) 192) ≡ true = ground (arith, small) in
    let value : sum * 64 + (128 + d - 128) ≡ sum * 64 + d = omega arith in rw (inside, value) refl

finish_char-last :
    (least sum d c : ℕ) (later : Result (List ℕ))
    → sum * 64 + d ≡ c
    → leb least c ≡ true
    → is_scalar c ≡ true
    → finish_char least 0 (sum * 64 + d) later ≡ (later >>= λ rest. ok (c ∷ rest))
unfolding finish_char
finish_char-last least sum d c later q enough scalar = rw (q, enough, scalar) refl

decode-single :
    (c : ℕ) (bytes : List ℕ)
    → ltb c 128 ≡ true
    → decode (c ∷ bytes) ≡ (decode bytes >>= λ rest. ok (c ∷ rest))
unfolding decode decode_from
decode-single c bytes low = rw low refl

decode-two :
    (a : ℕ) (bytes : List ℕ)
    → ltb a 32 ≡ true
    → decode ((192 + a) ∷ bytes) ≡ decode_from 1 0x80 a bytes
unfolding decode decode_from
decode-two a bytes low =
    let t1 : ltb (192 + a) 128 ≡ false = ground arith in
    let t2 : ltb (192 + a) 192 ≡ false = ground arith in
    let t3 : ltb (192 + a) 224 ≡ true = ground (arith, low) in
    let v : 192 + a - 192 ≡ a = omega arith in rw (t1, t2, t3, v) refl

decode-three :
    (a : ℕ) (bytes : List ℕ)
    → ltb a 16 ≡ true
    → decode ((224 + a) ∷ bytes) ≡ decode_from 2 0x800 a bytes
unfolding decode decode_from
decode-three a bytes low =
    let t1 : ltb (224 + a) 128 ≡ false = ground arith in
    let t2 : ltb (224 + a) 192 ≡ false = ground arith in
    let t3 : ltb (224 + a) 224 ≡ false = ground arith in
    let t4 : ltb (224 + a) 240 ≡ true = ground (arith, low) in
    let v : 224 + a - 224 ≡ a = omega arith in rw (t1, t2, t3, t4, v) refl

decode-four :
    (a : ℕ) (bytes : List ℕ)
    → ltb a 8 ≡ true
    → decode ((240 + a) ∷ bytes) ≡ decode_from 3 0x10000 a bytes
unfolding decode decode_from
decode-four a bytes low =
    let t1 : ltb (240 + a) 128 ≡ false = ground arith in
    let t2 : ltb (240 + a) 192 ≡ false = ground arith in
    let t3 : ltb (240 + a) 224 ≡ false = ground arith in
    let t4 : ltb (240 + a) 240 ≡ false = ground arith in
    let t5 : ltb (240 + a) 248 ≡ true = ground (arith, low) in
    let v : 240 + a - 240 ≡ a = omega arith in rw (t1, t2, t3, t4, t5, v) refl

decode_from-done : (least sum : ℕ) (bytes : List ℕ) → decode_from 0 least sum bytes ≡ decode bytes
unfolding decode_from decode
decode_from-done least sum [] = refl
decode_from-done least sum (b ∷ bytes) = refl

-- the last byte of a character
decode_from-last :
    (least sum d c : ℕ) (bytes : List ℕ)
    → d < 64
    → sum * 64 + d ≡ c
    → leb least c ≡ true
    → is_scalar c ≡ true
    → decode_from 1 least sum ((128 + d) ∷ bytes) ≡ (decode bytes >>= λ rest. ok (c ∷ rest))
decode_from-last least sum d c bytes small q enough scalar =
    decode_from-next 0 least sum d bytes small
    ∙ finish_char-last least sum d c (decode_from 0 least (sum * 64 + d) bytes) q enough scalar
    ∙ ap (λ r. r >>= λ rest. ok (c ∷ rest)) (decode_from-done least (sum * 64 + d) bytes)

-- a byte in the middle of a character
decode_from-middle :
    (more least sum d : ℕ) (bytes : List ℕ)
    → d < 64
    → decode_from (suc (suc more)) least sum ((128 + d) ∷ bytes)
      ≡ decode_from (suc more) least (sum * 64 + d) bytes
unfolding finish_char
decode_from-middle more least sum d bytes small =
    decode_from-next (suc more) least sum d bytes small

decode-nothing : decode [] ≡ ok []
unfolding decode decode_from
decode-nothing = refl

-- a character has at most 21 bits
top_byte : (c : ℕ) → is_scalar c ≡ true → ltb (c / 262144) 8 ≡ true
unfolding is_scalar
top_byte c scalar = let low : ltb c 0x110000 ≡ true = ground (arith, scalar) in ground (arith, low)

decode-encode_char :
    (c : ℕ) (bytes : List ℕ)
    → is_scalar c ≡ true
    → decode (encode_char c ++ bytes) ≡ (decode bytes >>= λ rest. ok (c ∷ rest))
unfolding encode_char
decode-encode_char c bytes scalar = elim (Bool-cases (ltb c 0x80)) [
  | inl one ↦ rw one (decode-single c bytes one)
  | inr above ↦ elim (Bool-cases (ltb c 0x800)) [
    | inl two ↦
        rw (above, two)
          (decode-two (c / 64) ((128 + c % 64) ∷ bytes) (ground (arith, two))
            ∙ decode_from-last 0x80 (c / 64) (c % 64) c bytes (omega arith) (omega arith)
                (ground (arith, above)) scalar)
    | inr more ↦ elim (Bool-cases (ltb c 0x10000)) [
      | inl three ↦
          rw (above, more, three)
            (decode-three (c / 4096) ((128 + c / 64 % 64) ∷ (128 + c % 64) ∷ bytes)
                (ground (arith, three))
              ∙ decode_from-middle 0 0x800 (c / 4096) (c / 64 % 64) ((128 + c % 64) ∷ bytes)
                  (omega arith)
              ∙ decode_from-last 0x800 (c / 4096 * 64 + c / 64 % 64) (c % 64) c bytes (omega arith)
                  (omega arith) (ground (arith, more)) scalar)
      | inr four ↦
          let below : ltb (c / 262144) 8 ≡ true = top_byte c scalar in
          let mid = c / 262144 * 64 + c / 4096 % 64 in
          rw (above, more, four)
            (decode-four (c / 262144)
                ((128 + c / 4096 % 64) ∷ (128 + c / 64 % 64) ∷ (128 + c % 64) ∷ bytes) below
              ∙ decode_from-middle 1 0x10000 (c / 262144) (c / 4096 % 64)
                  ((128 + c / 64 % 64) ∷ (128 + c % 64) ∷ bytes) (omega arith)
              ∙ decode_from-middle 0 0x10000 mid (c / 64 % 64) ((128 + c % 64) ∷ bytes)
                  (omega arith)
              ∙ decode_from-last 0x10000 (mid * 64 + c / 64 % 64) (c % 64) c bytes (omega arith)
                  (omega arith) (ground (arith, four)) scalar)
    ]
  ]
]

-- Bytes that encode a text are decoded to it.
pub decode-encode : (text bytes : List ℕ) → encode text ≡ ok bytes → decode bytes ≡ ok text
unfolding encode
decode-encode [] bytes q =
    let e : [] ≡ bytes = ground (arith, q) in subst (λ b. decode b ≡ ok []) e decode-nothing
decode-encode (c ∷ text) bytes q = elim (Result-cases (encode text)) [
  | inr error ↦ absurd (ground (arith, q, error.1))
  | inl rest ↦ elim (Bool-cases (is_scalar c)) [
    | inr bad ↦ absurd (ground (arith, q, rest.1, bad))
    | inl scalar ↦
        let e : encode_char c ++ rest.0 ≡ bytes = ground (arith, q, rest.1, scalar) in
        let ih = decode-encode text rest.0 rest.1 in
        subst (λ b. decode b ≡ ok (c ∷ text)) e
          (decode-encode_char c rest.0 scalar ∙ ap (λ r. r >>= λ xs. ok (c ∷ xs)) ih)
  ]
]
