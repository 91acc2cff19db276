-- ===== src/Workflow/StartTests.antt =====
-- A template that a department may start, and one of its users.
use devops_backend.Prelude.{◌≡◌, ◌↔◌, ◌⊎◌, refl, Bool, true, false, [], ◌∷◌, Some}
use devops_backend.Outcome.{ok}
use devops_backend.Text.{split}
use devops_backend.Workflow.Start.{
  Department, three_parts, department_ids, ids_of, get_member_user_ids, has_text, Starter,
  may_start, names_user, may_start-Some,
}

abbrev developers : Department
developers = record { id = "5"; users = 1 ∷ 2 ∷ [] }

abbrev developer : Starter
developer = record { id_text = "1"; is_superuser = false }

abbrev no : Bool
no = false

-- the user of the department is turned away
turned_away : may_start (developers ∷ []) ("organization@5@Dev" ∷ []) developer ≡ ok no
unfolding may_start get_member_user_ids three_parts split ids_of department_ids has_text
turned_away = refl

may_start-Some_example :
    (no ≡ true)
    ↔ ((developer.is_superuser ≡ true) ⊎ Some (names_user "1") ("organization@5@Dev" ∷ []))
may_start-Some_example =
    may_start-Some (developers ∷ []) "organization@5@Dev" [] developer no turned_away
