-- ===== src/Shared/Words.antt =====
-- is_chinese, get_word_list and snake_case of common/ext_fun.py.
use Prim.Native.Char.{Char, code}
use Prim.Native.String.{◌++◌ as append}
use devops_backend.Prelude.{
  ◌≡◌, refl, String, Bool, true, false, ◌&&◌, ◌||◌, not, List, [], ◌∷◌, ◌==◌, number_key, text_key,
  if◌then◌else◌, leb, select,
}
use devops_backend.Text.{extend, lower, replace, translate, replace_from}

-- `'\u4e00' <= ch <= '\u9fff'` for some character
unfoldable pub is_chinese : String → Bool
is_chinese String.[] = false
is_chinese (String.◌∷◌ c s) =
    let rest = is_chinese s in leb 0x4e00 (code c) && leb (code c) 0x9fff || rest

-- the class of the regular expression: a Chinese character or a dash
abbrev pub is_separator : Char → Bool
is_separator c = leb 0x4e00 (code c) && leb (code c) 0x9fa5 || code c == 45

-- `re.split` with the separators kept
unfoldable pub split_kept : String → List String
split_kept String.[] = "" ∷ []
split_kept (String.◌∷◌ c s) =
    let rest = split_kept s in
    if is_separator c then "" ∷ String.◌∷◌ c String.[] ∷ rest else extend c rest

-- `len(i.strip()) == 0`, of blanks, tabs and line ends
unfoldable pub is_blank : String → Bool
is_blank String.[] = true
is_blank (String.◌∷◌ c s) =
    let rest = is_blank s in (code c == 32 || leb 9 (code c) && leb (code c) 13) && rest

unfoldable pub get_word_list : String → List String
get_word_list string = select (λ i. not (is_blank i) && not (i == "-")) (split_kept (lower string))

-- an underscore before each capital
unfoldable underscored : String → String
underscored String.[] = ""
underscored (String.◌∷◌ c s) =
    let rest = underscored s in
    if leb 65 (code c) && leb (code c) 90 then append "_" (String.◌∷◌ c rest) else String.◌∷◌ c rest

-- `lstrip('_')` and `rstrip('_')`
unfoldable strip_left : String → String
strip_left String.[] = ""
strip_left (String.◌∷◌ c s) =
    let rest = strip_left s in if code c == 95 then rest else String.◌∷◌ c s

unfoldable strip_right : String → String
strip_right String.[] = ""
strip_right (String.◌∷◌ c s) =
    let rest = strip_right s in if rest == "" && code c == 95 then "" else String.◌∷◌ c rest

-- the terms that keep their letters together
unfoldable join_terms : List String → String → String
join_terms [] x = x
join_terms (term ∷ terms) x = join_terms terms (replace term (lower term) x)

unfoldable pub snake_case : String → String
unfolding underscored strip_left strip_right join_terms
snake_case x =
    let terms =
      "OS" ∷ "GPU" ∷ "DB" ∷ "IA" ∷ "IP" ∷ "RR" ∷ "TTL" ∷ "SLB" ∷ "CPU" ∷ "MEMORY" ∷ "QPS" ∷ [] in
    strip_right (strip_left (lower (underscored (join_terms terms x))))

words_mixed : get_word_list "发布-App one" ≡ "发" ∷ "布" ∷ "app one" ∷ []
unfolding get_word_list split_kept is_blank lower translate
words_mixed = refl

snake_case_ip : snake_case "PublicIPAddress" ≡ "publicip_address"
unfolding snake_case underscored strip_left strip_right join_terms lower translate replace
    replace_from
snake_case_ip = refl
