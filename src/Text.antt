-- ===== src/Text.antt =====
-- Python's `str.split` on one character, `str.replace`, `in`, `startswith` and `rstrip`, over the native text.
use Prim.Native.Char.{Char, code}
use Prim.Native.String.{count, ◌++◌ as append}
use text.Mathlib.Text.{starts_with}
use devops_backend.Prelude.{
  Bool, Bool-cases, inl, inr, true, false, ◌&&◌, ◌||◌, beq_refl, text_key, ℕ, zero, suc, ◌-◌,
  String, ◌≡◌, refl, List, [], ◌∷◌, ◌==◌, if◌then◌else◌, number_key,
}

-- one more character in front of the first piece
abbrev pub extend : Char → List String → List String
extend c [] = String.◌∷◌ c String.[] ∷ []
extend c (p ∷ ps) = String.◌∷◌ c p ∷ ps

unfoldable pub split : Char → String → List String
split sep String.[] = String.[] ∷ []
split sep (String.◌∷◌ c s) =
    let rest = split sep s in if code c == code sep then String.[] ∷ rest else extend c rest

split_member : split "@" "user@12@Ann" ≡ "user" ∷ "12" ∷ "Ann" ∷ []
unfolding split
split_member = refl

split_plain : split "@" "12" ≡ "12" ∷ []
unfolding split
split_plain = refl

-- `text.replace(old, new)` for an `old` that is not empty, `skip` characters of a match being left
unfoldable pub replace_from : String → String → ℕ → String → String
replace_from old new skip String.[] = String.[]
replace_from old new (suc skip) (String.◌∷◌ c s) = replace_from old new skip s
replace_from old new zero (String.◌∷◌ c s) =
    let matched = replace_from old new (count old - 1) s in
    let passed = replace_from old new 0 s in
    if starts_with (String.◌∷◌ c s) old then append new matched else String.◌∷◌ c passed

unfoldable pub replace : String → String → String → String
unfolding replace_from
replace old new s = replace_from old new 0 s

replace_image : replace "pro-" "uat-" "pro-app/pro-web:1" ≡ "uat-app/uat-web:1"
unfolding replace replace_from
replace_image = refl

-- `part in text`
unfoldable pub is_part : String → String → Bool
is_part part String.[] = part == ""
is_part part (String.◌∷◌ c s) =
    let rest = is_part part s in starts_with (String.◌∷◌ c s) part || rest

-- `text.startswith(prefix)`
unfoldable pub has_prefix : String → String → Bool
has_prefix text String.[] = true
has_prefix String.[] (String.◌∷◌ d prefix) = false
has_prefix (String.◌∷◌ c text) (String.◌∷◌ d prefix) =
    let rest = has_prefix text prefix in code c == code d && rest

-- `text.rstrip('-*')`
unfoldable pub strip_end : String → String
strip_end String.[] = String.[]
strip_end (String.◌∷◌ c text) =
    let rest = strip_end text in
    if rest == "" && (code c == 45 || code c == 42) then String.[] else String.◌∷◌ c rest

-- what is left of a text is a prefix of it
pub has_prefix-strip_end : (text : String) → has_prefix text (strip_end text) ≡ true
unfolding has_prefix strip_end
has_prefix-strip_end String.[] = refl
has_prefix-strip_end (String.◌∷◌ c text) =
    let ih = has_prefix-strip_end text in
    elim (Bool-cases (strip_end text == "" && (code c == 45 || code c == 42))) [
      | inl q ↦ rw q refl
      | inr q ↦ rw (q, ih, beq_refl (code c)) refl
    ]

pub has_prefix-empty : (text : String) → has_prefix text "" ≡ true
unfolding has_prefix
has_prefix-empty String.[] = refl
has_prefix-empty (String.◌∷◌ c text) = refl

-- `pieces[-1]` of the pieces of a text
unfoldable pub last : List String → String
last [] = ""
last (x ∷ xs) = let rest = last xs in elim xs [ [] ↦ x | _ ∷ _ ↦ rest ]

-- the letter beside `c` in the other alphabet, or `c`
unfoldable pub translate : Char → String → String → Char
translate c String.[] ys = c
translate c (String.◌∷◌ x xs) String.[] = c
translate c (String.◌∷◌ x xs) (String.◌∷◌ y ys) =
    let rest = translate c xs ys in if code c == code x then y else rest

-- `text.lower()` of the letters without accents
unfoldable pub lower : String → String
unfolding translate
lower String.[] = String.[]
lower (String.◌∷◌ c text) =
    String.◌∷◌ (translate c "ABCDEFGHIJKLMNOPQRSTUVWXYZ" "abcdefghijklmnopqrstuvwxyz") (lower text)

lower_environment : lower "UAT-1" ≡ "uat-1"
unfolding lower translate
lower_environment = refl
