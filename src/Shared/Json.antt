-- ===== src/Shared/Json.antt =====
-- JSON values; a dict keeps the order of its keys.
use devops_backend.Prelude.{ℕ, String, Bool}

mutual
  pub data Json : Type 0 where
    null : Json
    bool : Bool → Json
    num : ℕ → Json
    text : String → Json
    arr : Items → Json
    obj : Fields → Json

  pub data Items : Type 0 where
    nil : Items
    cons : Json → Items → Items

  pub data Fields : Type 0 where
    end : Fields
    field : String → Json → Fields → Fields
