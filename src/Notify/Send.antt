-- ===== src/Notify/Send.antt =====
-- deploy_notify_send of qtasks/tasks.py. The order in which Python lists a set is a parameter.
use Prim.Native.String.{◌++◌ as append}
use devops_backend.Prelude.{
  String, Option, none, some, List, [], ◌∷◌, text_key, number_key, ◌==◌, if◌then◌else◌, contains,
  distinct,
}
use devops_backend.Notify.Model.{Cache, NotifyMessage, message, delay, other_value, given}

-- an exception ends the body
infixl 10 ◌>>=◌
abbrev ◌>>=◌ : {A B : Type 0} → Option A → (A → Option B) → Option B
none >>= f = none
some a >>= f = f a

-- `separator.join(texts)`
unfoldable pub join : String → List String → String
join sep [] = ""
join sep (t ∷ ts) =
    let rest = join sep ts in elim ts [ [] ↦ t | _ ∷ _ ↦ append t (append sep rest) ]

-- the configuration of a robot; a missing webhook or key raises
pub record Robot : Type 0 where
  pub type : Option String
  pub webhook : Option String
  pub key : Option String

-- a call of `deploy_notify` of the robot's class
pub record Delivery : Type 0 where
  pub type : String
  pub webhook : String
  pub key : String
  pub content : String
  pub recv_phone : String
  pub title : String

-- ROBOT_CATEGORIES: the types of the robots that have a class
abbrev pub robot_categories : List String
robot_categories = []

-- `[v['msg'] for ...]`, which raises for a value that is no message
unfoldable pub texts : Cache → Option (List String)
texts [] = some []
texts ((k, e) ∷ rest) =
    let later = texts rest in
    elim e [
      | message m ↦ elim later [ none ↦ none | some ts ↦ some (m.msg ∷ ts) ]
      | delay curr wait ↦ none
      | other_value ↦ none
    ]

-- `[v[field] for ... if v.get(field, None)]`
unfoldable pub receivers : (NotifyMessage → Option String) → Cache → List String
receivers field [] = []
receivers field ((k, e) ∷ rest) =
    let later = receivers field rest in
    elim e [
      | message m ↦ elim (given (field m)) [ none ↦ later | some r ↦ r ∷ later ]
      | delay curr wait ↦ later
      | other_value ↦ later
    ]

unfoldable pub with_order : Option String → String → String
with_order order_id content = elim (given order_id) [
  | none ↦ content
  | some id ↦ append content (append "\n---\n**工单ID: " (append id "**  "))
]

-- none where the code logs an exception instead
unfoldable pub deploy_notify_send :
    (List String → List String)
    → List String
    → Option Robot
    → Option String
    → String
    → Cache
    → Option Delivery
deploy_notify_send listed categories found order_id title msg = do
  conf ← found
  let kind = robot_type conf
  webhook ← if contains categories kind then conf.webhook else none
  key ← conf.key
  ts ← texts msg
  some record {
    type = kind;
    webhook = webhook;
    key = key;
    content = with_order order_id (join "\n---\n" ts);
    recv_phone = join "," (listed (distinct (receivers (address kind) msg)));
    title = title;
  }
  where
    robot_type : Robot → String
    robot_type r = elim r.type [ none ↦ "dingtalk" | some t ↦ t ]

    address : String → NotifyMessage → Option String
    address kind m = if kind == "feishu" then m.recv_openid else m.recv_phone
