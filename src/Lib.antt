-- ===== src/Lib.antt =====
-- devops-backend: the Django backend of an operations platform. Tickets run through a chain of
-- approval nodes (apps/workflow), applications are built by Jenkins (qtasks/tasks_build.py) and
-- deployed to Kubernetes or to hosts (qtasks/tasks_deploy.py), each request passing the checks of
-- its role (common/extends/permissions.py) and of its target (common/extends/decorators.py).
--
-- The parts and their files
-- - Workflow, of apps/workflow: Workflow/Model.antt has the rows of dbapp/model/model_workflow.py;
--   Workflow/LifeCycle.antt the class LifeCycle and Workflow/Callback.antt the class Callback of
--   apps/workflow/lifecycle.py; Workflow/Views.antt the actions revoke, close and complete of
--   apps/workflow/views/workflow.py; Workflow/Upcoming.antt the handling of a node, `update` of
--   apps/workflow/views/my_upcoming.py; Workflow/Start.antt the users that may start a ticket, by
--   get_member_user_ids of apps/workflow/notice.py, and Workflow/Create.antt create_workflow of
--   apps/workflow/ext_func.py with the view that calls it; Workflow/Hooks.antt the calls of callbacks,
--   of apps/workflow/callback_common.py and apps/workflow/views/callback.py, and their retry. A view
--   changes a state `Db` of tickets, history rows and callback rows, or raises; `atomic` is its
--   transaction, and what is registered on commit runs behind it.
--   The other files of Workflow hold proofs: Movement (`next`), Countersign, Resubmit (a rejection
--   and the way back), Passing (to the end of a template), Placed, Tables
--   and Commits (what a request keeps), Reach (sequences of requests), Reopen; Opened, Second and
--   Waiting (a new ticket), Retried.
-- - Deploy, of qtasks/tasks_deploy.py and common/kubernetes_utils.py: Deploy/Flow.antt is the class
--   K8sDeploy, one cluster and its stages, over the replies of Deploy/Model.antt;
--   Deploy/Clusters.antt is K8sDeploys.run, the loop over the clusters; Deploy/Orders.antt has the
--   rows of a job, its publish order and the apps of the order, with the status functions of
--   K8sDeploys, JarDeploy and WebDeploy; Deploy/Hosts.antt is JarDeploy.run and WebDeploy.run;
--   Deploy/Check.antt is the class DeploymentCheck; Deploy/Voiding.antt is partial_update of
--   PublishAppViewSet in apps/deploy/views.py. Proofs: Ones (the test by a set), Stages (what a
--   flow leaves), Verdict (the status of an order), Release (the whole run), Running (the check),
--   Live (both together), Spread (hosts).
-- - Launch, of apps/deploy/ext_func.py and DeployJobViewSet in apps/deploy/views.py:
--   Launch/Model.antt has the rows, the requests and the queued tasks, Launch/Payload.antt the payload
--   for hosts, Launch/Handle.antt app_deploy_handle and deploy_handle, Launch/Views.antt create with
--   its guards, deploy_callback and deploy_result, Launch/Reset.antt reset_status and the apps of a
--   new order; proofs in Whole and Reset.
-- - Shared, of common/ext_fun.py: Shared/Dict.antt has Python's dict as a list of pairs and
--   Shared/Json.antt its JSON values; Mask the function mask_sensitive_data, Nodes node_filter,
--   Compare compare_dict and get_members, Config the configuration behind the cache, Period
--   time_period, Words the functions on words.
-- - Manifest, of template_generate in common/ext_fun.py: Manifest/Merge.antt merges the four
--   templates, Pieces and Env make the parts of the Deployment, Health its probes and hooks, and
--   Generate.antt the whole, for which the field `generate` of Launch stands; proofs in Precedence,
--   Owned, Pieces and Generate.
-- - Access, of common/extends/permissions.py: Access/Rbac.antt; proofs in Methods and Grant.
-- - Guards, of common/extends/decorators.py and time_comp of common/ext_fun.py: Guards/Branch.antt
--   has branch_allow_check, Guards/Release.antt the three other decorators, Guards/Expiry.antt the
--   time-out of orders in extend_filter of PublishOrderViewSet (apps/deploy/views.py); proofs in
--   Allowed, Timely and Expiry.
-- - Build, of qtasks/tasks_build.py and app_build_handle in apps/deploy/ext_func.py:
--   Build/Jenkins.antt has the loops and the end of a start, Build/Finish.antt the callback,
--   Build/Handle.antt app_build_handle, Build/Stop.antt and Build/Images.antt the views of
--   BuildJobViewSet (apps/deploy/views.py); proofs in Polling, Finish and Kept.
-- - Notify, of qtasks/tasks.py: Notify/Model.antt has the messages in the cache, Notify/Queue.antt
--   deploy_notify_queue, Notify/Cron.antt deploy_notify_cron, Notify/Send.antt deploy_notify_send, and
--   Notify/Images.antt the tasks on images and on resources of a cluster; proofs in Moved, Stuck and
--   Kept.
-- - Users, of apps/ucenter: Users/Menus.antt is menu_sort and Users/Accounts.antt the log-in and the
--   changes of users and roles, of views.py; Users/Routers.antt is get_routers of serializers.py;
--   proofs there and in Bound.
-- - Cipher, of common/utils/AesCipher.py: Cipher/Aes.antt has the padding and UTF-8, proofs in Utf
--   and Padding.
-- Prelude.antt, Outcome.antt and Text.antt hold what these share: lists over native numbers,
-- equality tests of keys, Python's exceptions as results, and the functions of str that the program
-- calls. The modules called Tests, HostTests and StartTests hold runs at concrete inputs and the
-- theorems at them.
--
-- How the parts meet. A request passes Access and Guards before a view runs. A ticket that is
-- passed calls the views of its node after the commit; such a call can start a build or a
-- deployment. A deployment marks the job and, by the job's order id, the apps of an order and the
-- order, which Guards reads again for the next request. DeploymentCheck gives the last stage of a
-- flow its status: the field check_app_deploy of `Services` stands for it, and the tests fill it
-- with `run_check`.
--
-- How code is modelled. A method that changes an object is a function on a record of what it
-- changes; an exception is `err` with its class, and where the code goes on after one the state is
-- kept beside it (`Step`, `Done`, `Ended`, `Called`). Querysets are lists, newest first where the
-- model orders them so; `get` is the first match or an exception. Values that a request or a
-- configuration may lack are options, and what the code does without them is written out. Delays
-- count tenths of a second, times seconds. A log, a message for people and the text of a notice are
-- left out.
--
-- Bounds and fuel. check_deployment, check_replica and the rounds of DeploymentCheck recurse on the
-- counts that the code itself counts down. The loops over Jenkins stop when their count passes 600
-- and take fuel: 601 rounds, the most that this count allows. The padding of the cipher takes fuel
-- 2: one round fills the block, and the second finds it full.
--
-- Parameters. The APIs of Kubernetes, Harbor, Jenkins and Ansible, the AES function and base64, the
-- user table of a countersign and the validation of a form are arguments; the cluster and Jenkins
-- may answer each call differently. The views that a node calls are known by their names only.
--
-- Not modelled: the views, serializers and filters that store and list rows without a rule of their
-- own (apps/cmdb, apps/dashboard, most of apps/ucenter and apps/deploy/views.py); the clients of other
-- systems (common/utils); the consumers and Celery tasks that pass logs to web sockets; notices of
-- tickets and mail; the settings, routing and migrations of Django. They are glue to systems whose behaviour
-- the sources do not show.
pub mod Prelude
pub mod Outcome
pub mod Text
pub mod Workflow
pub mod Deploy
pub mod Access
pub mod Guards
pub mod Build
pub mod Cipher
pub mod Launch
pub mod Shared
pub mod Manifest
pub mod Notify
pub mod Users
