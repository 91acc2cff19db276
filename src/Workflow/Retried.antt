-- ===== src/Workflow/Retried.antt =====
-- What is left of a callback that is called again, in apps/workflow/views/callback.py.
use devops_backend.Prelude.{
  ℕ, suc, String, ◌≡◌, refl, false, some, [], ◌∷◌, ◌++◌, arith, text_key, number_key, ◌==◌,
  if◌then◌else◌, get_elem?, beq_refl,
}
use devops_backend.Prelude.{get_elem?-map}
use devops_backend.Outcome.{ok}
use devops_backend.Workflow.Hooks.{
  pending, retried, HookRow, HookTask, HookDb, HookEnv, update_row, respond_row, workflow_callback,
  insert_row, find_row, retry,
}

get_elem?-update_row :
    (id : ℕ) (change : HookRow → HookRow) (db : HookDb) (i : ℕ) (r : HookRow)
    → get_elem? db.rows i ≡ some r
    → get_elem? (update_row id change db).rows i ≡ some (if r.id == id then change r else r)
unfolding update_row
get_elem?-update_row id change db i r at =
    get_elem?-map (λ q. if q.id == id then change q else q) db.rows i r at

tasks-update_row :
    (id : ℕ) (change : HookRow → HookRow) (db : HookDb) → (update_row id change db).tasks ≡ db.tasks
unfolding update_row
tasks-update_row id change db = refl

respond_row-status :
    (env : HookEnv) (url : String) (r : HookRow) → (respond_row env url r).status ≡ r.status
unfolding respond_row
respond_row-status env url r = ground arith

-- the task of a retry
abbrev pub retry_task : HookDb → HookRow → ℕ → HookTask
retry_task db old history = record {
  callback_type = old.callback_type;
  node_history = history;
  callback = db.next_id;
  url = old.callback_url;
}

-- A retry of a callback of a node, under a key that is not the old row's, is answered with 20000 and queues one
-- task with the type and the address of the old row, which is marked as retried wherever it stands in the
-- table; once the task has run, whatever the server replied, the new row is pending still.
pub retry-pending :
    (env : HookEnv) (pk user history i : ℕ) (db : HookDb) (old : HookRow)
    → find_row pk db ≡ some old
    → old.node_history ≡ some history
    → (db.next_id == old.id) ≡ false
    → get_elem? db.rows i ≡ some old
    → ((retry pk user db).1 ≡ ok 20000)
      × ((retry pk user db).0.tasks ≡ db.tasks ++ retry_task db old history ∷ [])
      × (get_elem? (retry pk user db).0.rows (suc i) ≡ some (record old { status = retried }))
      × (final : HookRow) × (get_elem?
            (workflow_callback env (retry_task db old history) (retry pk user db).0).rows
            0
          ≡ some final)
      × (final.status ≡ pending)
unfolding retry workflow_callback insert_row
retry-pending env pk user history i db old found node fresh at =
    let made : HookRow = record {
      id = db.next_id;
      node_history = old.node_history;
      trigger = user;
      callback_type = old.callback_type;
      callback_url = old.callback_url;
      status = pending;
      response_code = 0;
      response_result = "";
    } in
    let added : HookDb = record db {
      rows = made ∷ db.rows;
      next_id = suc db.next_id;
      tasks = db.tasks ++ retry_task db old history ∷ [];
    } in
    let mark : HookRow → HookRow = λ r. record r { status = retried } in
    let marked = get_elem?-update_row old.id mark added (suc i) old at in
    let first = get_elem?-update_row old.id mark added 0 made refl in
    let done : HookDb = update_row old.id mark added in
    let new : get_elem? done.rows 0 ≡ some made = ground (arith, first, fresh) in
    let answered =
      get_elem?-update_row db.next_id (respond_row env old.callback_url) done 0 made new in
    let same = respond_row-status env old.callback_url made in
    let kept = tasks-update_row old.id mark added in
    (
      ground (arith, found, node),
      ground (arith, found, node, kept),
      ground (arith, found, node, marked, beq_refl old.id),
      respond_row env old.callback_url made,
      ground (arith, found, node, answered, beq_refl db.next_id),
      same,
    )
