-- ===== src/Workflow/Opened.antt =====
-- A ticket that is created, in apps/workflow/ext_func.py and apps/workflow/views/workflow.py.
use devops_backend.Prelude.{
  ◌≢◌, subst, sym, suc, String, ◌≡◌, refl, ap, ◌∙◌, inr, Bool, true, List, [], ◌∷◌, ◌++◌, arith,
  eq_iff, text_key, number_key, Some, inl,
}
use devops_backend.Outcome.{Result-cases, ok}
use devops_backend.Text.{split}
use devops_backend.Workflow.Start.{
  Department, Starter, may_start, may_start-Some, names_user, names_user-parts, three_parts, Member,
}
use devops_backend.Workflow.Create.{
  CreateEnv, CreateRequest, start_ticket, new_workflow, assign_fields, turned_down, create_workflow,
  merge_members, merge_rest, without_first, begin_ticket, CreateNode, add_self,
}

Some-last : (p : String → Bool) (xs : List String) (x : String) → p x ≡ true → Some p (xs ++ x ∷ [])
Some-last p [] x h = (0, x, refl, h)
Some-last p (y ∷ xs) x h = let r = Some-last p xs x h in (suc r.0, r.1, r.2, r.3)

member_named :
    (user : Starter) (name self_member : String)
    → split "@" self_member ≡ "user" ∷ user.id_text ∷ name ∷ []
    → names_user user.id_text self_member ≡ true
unfolding three_parts
member_named user name self_member parts =
    let m : Member = record { kind = "user"; id = user.id_text } in
    names_user-parts user.id_text self_member m (ap (λ ps. three_parts ps) parts)
    ∙ ground (arith, eq_iff user.id_text user.id_text)

may_start-last :
    (departments : List Department) (members : List String) (me : String) (user : Starter)
    (b : Bool)
    → names_user user.id_text me ≡ true
    → may_start departments (members ++ me ∷ []) user ≡ ok b
    → b ≡ true
may_start-last departments [] me user b named q =
    (may_start-Some departments me [] user b q).1
      (inr (Some-last (names_user user.id_text) [] me named))
may_start-last departments (m ∷ members) me user b named q =
    (may_start-Some departments m (members ++ me ∷ []) user b q).1
      (inr (Some-last (names_user user.id_text) (m ∷ members) me named))

may_start-anyone :
    (departments : List Department) (n : CreateNode) (user : Starter) (name self_member : String)
    (b : Bool)
    → n.conf.pass_type ≡ "passed"
    → split "@" self_member ≡ "user" ∷ user.id_text ∷ name ∷ []
    → may_start departments (add_self self_member n).conf.members user ≡ ok b
    → b ≡ true
unfolding add_self
may_start-anyone departments n user name self_member b passed parts q =
    let same = (eq_iff n.conf.pass_type "passed").1 passed in
    let named = member_named user name self_member parts in
    may_start-last departments n.conf.members self_member user b named (ground (arith, q, same))

start_ticket-accepted :
    (env : CreateEnv) (request : CreateRequest) (first : CreateNode) (nodes : List CreateNode)
    → env.workflow_valid ≡ true
    → env.env.node_form_valid first.conf.name ≡ true
    → start_ticket env request first nodes ≢ ok turned_down
unfolding start_ticket new_workflow
start_ticket-accepted env request first nodes valid named q =
    elim (Result-cases (assign_fields env request first.form_models nodes)) [
      | inr error ↦ ground (arith, q, valid, error.1)
      | inl assigned ↦ ground (arith, q, valid, assigned.1, named)
    ]

add_self-name : (me : String) (n : CreateNode) → (add_self me n).conf.name ≡ n.conf.name
unfolding add_self
add_self-name me n = ground arith

-- Where the serializers accept the rows, create_workflow turns nobody down at a first node without
-- approval, whoever the members of the node are: the user whose member text has three parts has become a
-- member before the members are asked. It creates the ticket or raises.
pub create_workflow-anyone :
    (env : CreateEnv) (request : CreateRequest) (n : CreateNode) (nodes : List CreateNode)
    (name : String)
    → n.conf.pass_type ≡ "passed"
    → split "@" request.self_member ≡ "user" ∷ request.starter.id_text ∷ name ∷ []
    → env.workflow_valid ≡ true
    → env.env.node_form_valid n.conf.name ≡ true
    → create_workflow env request (n ∷ nodes) ≢ ok turned_down
unfolding create_workflow merge_members begin_ticket
create_workflow-anyone env request n nodes name passed parts valid named q =
    elim (Result-cases
      (merge_rest env.listed request.self_member nodes (without_first request.extra))) [
        | inr error ↦ ground (arith, q, error.1)
        | inl rest ↦
            let first = add_self request.self_member n in
            let begun : begin_ticket env request (first ∷ rest.0) ≡ ok turned_down =
              ground (arith, q, rest.1) in
            elim (Result-cases (may_start env.departments first.conf.members request.starter)) [
              | inr error ↦ ground (arith, begun, error.1)
              | inl allowed ↦
                  let let_in =
                    may_start-anyone env.departments n request.starter name request.self_member
                      allowed.0 passed parts allowed.1 in
                  let same_name = add_self-name request.self_member n in
                  let named' : env.env.node_form_valid first.conf.name ≡ true =
                    subst (λ t. env.env.node_form_valid t ≡ true) (sym same_name) named in
                  let accepted =
                    start_ticket-accepted env request first (first ∷ rest.0) valid named' in
                  accepted (ground (arith, begun, allowed.1, let_in))
            ]
      ]
