-- ===== src/Notify/Kept.antt =====
-- Which tags are left by clean_image_task of qtasks/tasks.py.
use devops_backend.Prelude.{
  beq_refl, ltb, length, select, not, Bool, ℕ, String, Bool, false, not, Option, none, some, List,
  ◌++◌, ltb, text_key, number_key, ◌==◌, length, select, beq_refl, IsDistinct,
}
use devops_backend.Notify.Images.{take, drop}

module _ (deletes : String → Bool) where
  -- the tags that the registry refuses to delete
  abbrev pub refused : List String → List String
  refused tags = select (λ t. not (deletes t)) tags

  -- the first tags, and those behind them that the registry refuses to delete
  abbrev pub keep : ℕ → List String → List String
  keep n tags = take n tags ++ refused (drop n tags)

-- what a registry has, cut to a number of tags
abbrev pub cut : (String → Bool) → ℕ → Option (List String) → Option (List String)
cut deletes n none = none
cut deletes n (some tags) = some (keep deletes n tags)

abbrev pub names : String → Option String → Bool
names harbor none = false
names harbor (some g) = g == harbor

abbrev AreDistinct : Option (List String) → Type 0
AreDistinct none = Unit
AreDistinct (some tags) = IsDistinct tags
