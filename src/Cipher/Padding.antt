-- ===== src/Cipher/Padding.antt =====
-- Which texts come back from the cipher of common/utils/AesCipher.py.
use mathlib.Core.List.{append_assoc}
use devops_backend.Prelude.{
  ap, ◌<◌, ◌⊎◌, inl, inr, true, ltb, Bool-cases, ◌==◌, ℕ, zero, suc, ◌+◌, ◌-◌, ◌%◌, ◌≡◌, ◌≢◌, refl,
  sym, subst, some, List, [], ◌∷◌, ◌++◌, number_key, arith, length,
}
use devops_backend.Outcome.{ok, err, value_error, Result-cases}
use devops_backend.Cipher.Utf.{decode-encode}
use devops_backend.Cipher.Aes.{
  is_scalar, encode_char, encode, seal_blocks, repeated, pad_loop, pad, last_code, first_codes,
  unpad, Block, encrypt, decrypt,
}

length-repeated : (n c : ℕ) → length (repeated n c) ≡ n
unfolding repeated
length-repeated zero c = refl
length-repeated (suc n) c = ground (arith, length-repeated n c)

length-append : (xs ys : List ℕ) → length (xs ++ ys) ≡ length xs + length ys
length-append [] ys = ground arith
length-append (x ∷ xs) ys = ground (arith, length-append xs ys)

first_codes-append : (xs ys : List ℕ) → first_codes (length xs) (xs ++ ys) ≡ xs
unfolding first_codes
first_codes-append [] ys = refl
first_codes-append (x ∷ xs) ys = let ih = first_codes-append xs ys in ground (arith, ih)

last_code-repeated : (xs : List ℕ) (n c : ℕ) → last_code (xs ++ repeated (suc n) c) ≡ some c
unfolding last_code repeated
last_code-repeated [] zero c = refl
last_code-repeated [] (suc n) c = let ih = last_code-repeated [] n c in ground (arith, ih)
last_code-repeated (x ∷ []) n c = let ih = last_code-repeated [] n c in ground (arith, ih)
last_code-repeated (x ∷ y ∷ xs) n c = let ih = last_code-repeated (y ∷ xs) n c in ground (arith, ih)

even-missing : (m : ℕ) → m % 16 ≢ 0 → (m + (16 - m % 16)) % 16 ≡ 0
even-missing m uneven = omega arith

pad-once :
    (text : List ℕ)
    → length text % 16 ≢ 0
    → pad text ≡ some (text ++ repeated (16 - length text % 16) (16 - length text % 16))
unfolding pad pad_loop
pad-once text uneven =
    let n = 16 - length text % 16 in
    let total = length-append text (repeated n n) in
    let even = even-missing (length text) in ground (arith, total, length-repeated n n, even)

unpad-repeated : (text : List ℕ) (n : ℕ) → unpad (text ++ repeated (suc n) (suc n)) ≡ ok text
unfolding unpad
unpad-repeated text n =
    let last = last_code-repeated text n (suc n) in
    let total = length-append text (repeated (suc n) (suc n)) in
    let count = length-repeated (suc n) (suc n) in
    let whole = text ++ repeated (suc n) (suc n) in
    let kept : length whole - suc n ≡ length text = omega arith in
    let front : first_codes (length whole - suc n) whole ≡ text =
      subst (λ k. first_codes k whole ≡ text) (sym kept)
        (first_codes-append text (repeated (suc n) (suc n))) in
    ground (arith, last, front)

is_scalar-small : (c : ℕ) → c < 128 → is_scalar c ≡ true
unfolding is_scalar
is_scalar-small c small = ground (arith, small)

encode_char-small : (c : ℕ) → c < 128 → encode_char c ≡ c ∷ []
unfolding encode_char
encode_char-small c small = let low : ltb c 128 ≡ true = ground (arith, small) in rw low refl

encode-repeated : (n c : ℕ) → c < 128 → encode (repeated n c) ≡ ok (repeated n c)
unfolding encode repeated
encode-repeated zero c small = refl
encode-repeated (suc n) c small =
    let ih = encode-repeated n c small in
    rw (ih, is_scalar-small c small, encode_char-small c small) refl

encode-append :
    (xs ys bs cs : List ℕ)
    → encode xs ≡ ok bs
    → encode ys ≡ ok cs
    → encode (xs ++ ys) ≡ ok (bs ++ cs)
unfolding encode
encode-append [] ys bs cs p q =
    let e : [] ≡ bs = ground (arith, p) in subst (λ b. encode ys ≡ ok (b ++ cs)) e q
encode-append (c ∷ xs) ys bs cs p q = elim (Result-cases (encode xs)) [
  | inr error ↦ absurd (ground (arith, p, error.1))
  | inl rest ↦ elim (Bool-cases (is_scalar c)) [
    | inr bad ↦ absurd (ground (arith, p, rest.1, bad))
    | inl scalar ↦
        let e : encode_char c ++ rest.0 ≡ bs = ground (arith, p, rest.1, scalar) in
        let ih = encode-append xs ys rest.0 cs rest.1 q in
        subst (λ b. encode (c ∷ xs ++ ys) ≡ ok (b ++ cs)) e
          (rw (encode, ih, scalar) (ap ok (sym (append_assoc (encode_char c) rest.0 cs))))
  ]
]

-- A text whose number of characters is no multiple of 16 comes back from the cipher if it has as many bytes
-- in UTF-8, but for multiples of 16; otherwise, the bytes with the padding fill no whole blocks, and its
-- encryption raises.
pub decrypt-encrypt :
    {C : Type 0} (block : Block C) (text bytes : List ℕ)
    → ((xs : List ℕ) → length xs % 16 ≡ 0 → block.unseal (block.seal xs) ≡ ok xs)
    → encode text ≡ ok bytes
    → length text % 16 ≢ 0
    → ((length bytes % 16 ≡ length text % 16)
        × ((c : C) × (encrypt block text ≡ some (ok c)) × (decrypt block c ≡ ok text)))
      ⊎ ((length bytes % 16 ≢ length text % 16) × (encrypt block text ≡ some (err value_error)))
unfolding encrypt decrypt seal_blocks
decrypt-encrypt block text bytes inverse encoded uneven =
    let n = 15 - length text % 16 in
    let once = pad-once text uneven in
    let filled : 16 - length text % 16 ≡ suc n = omega arith in
    let padded : pad text ≡ some (text ++ repeated (suc n) (suc n)) =
      subst (λ k. pad text ≡ some (text ++ repeated k k)) filled once in
    let pads = repeated (suc n) (suc n) in
    let small : suc n < 128 = omega arith in
    let whole =
      encode-append text pads bytes pads encoded (encode-repeated (suc n) (suc n) small) in
    let total = length-append bytes pads in
    let count = length-repeated (suc n) (suc n) in
    elim (Bool-cases (length (bytes ++ pads) % 16 == 0)) [
      | inl full ↦
          let even : length (bytes ++ pads) % 16 ≡ 0 = ground (arith, full) in
          let same : length bytes % 16 ≡ length text % 16 = omega (arith, even, total, count) in
          let opened = inverse (bytes ++ pads) even in
          let decoded = decode-encode (text ++ pads) (bytes ++ pads) whole in
          inl (
            same,
            (
              block.seal (bytes ++ pads),
              ground (arith, padded, whole, full),
              rw (opened, decoded) (unpad-repeated text n),
            ),
          )
      | inr broken ↦
          let odd : length (bytes ++ pads) % 16 ≢ 0 = ground (arith, broken) in
          let other : length bytes % 16 ≢ length text % 16 = omega (arith, odd, total, count) in
          inr (other, ground (arith, padded, whole, broken))
    ]
