-- ===== src/Workflow/HookTests.antt =====
-- A callback that a server refused, called again.
use devops_backend.Prelude.{◌≡◌, refl, true, none, some, [], ◌∷◌, text_key, number_key, get_elem?}
use devops_backend.Outcome.{ok, err, attribute_error}
use devops_backend.Text.{is_part}
use devops_backend.Workflow.Hooks.{
  pending, retried, failed, HookRow, HookDb, HookEnv, callback_work, workflow_callback, retry,
  find_row, full_url, test_callback, tested, strip_slashes, strip_slashes_end,
}
use devops_backend.Workflow.Retried.{retry-pending, retry_task}

abbrev refused_row : HookRow
refused_row = record {
  id = 3;
  node_history = some 12;
  trigger = 4;
  callback_type = "passed";
  callback_url = "/api/deploy";
  status = failed;
  response_code = 500;
  response_result = "down";
}

abbrev hook_db : HookDb
hook_db = record { rows = refused_row ∷ []; next_id = 4; tasks = [] }

abbrev hook_env : HookEnv
hook_env = record {
  platform_url = some "http://ops/";
  post = λ url. ok (200, url);
  message = λ t. "error";
}

own_address : callback_work hook_env "/api/deploy" ≡ ok (200, "http://ops/api/deploy")
unfolding callback_work full_url is_part strip_slashes_end strip_slashes
own_address = refl

simulated : test_callback hook_env true 4 "all" "/api/deploy" hook_db ≡ (hook_db, 20000)
unfolding test_callback tested callback_work full_url is_part
simulated = refl

retried_test :
    (retry 3 9 (record hook_db { rows = record refused_row { node_history = none } ∷ [] })).1
    ≡ err attribute_error
unfolding retry find_row
retried_test = refl

found_row : find_row 3 hook_db ≡ some refused_row
unfolding find_row
found_row = refl

retry-pending_example :
    ((retry 3 9 hook_db).1 ≡ ok 20000)
    × ((retry 3 9 hook_db).0.tasks ≡ retry_task hook_db refused_row 12 ∷ [])
    × (get_elem? (retry 3 9 hook_db).0.rows 1 ≡ some (record refused_row { status = retried }))
    × (final : HookRow) × (get_elem?
          (workflow_callback hook_env
            (retry_task hook_db refused_row 12)
            (retry 3 9 hook_db).0).rows
          0
        ≡ some final)
    × (final.status ≡ pending)
retry-pending_example = retry-pending hook_env 3 9 12 0 hook_db refused_row found_row refl refl refl
