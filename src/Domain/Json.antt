-- ===== src/Domain/Json.antt =====
-- Python's values of type `Any` in models and events: what JSON can hold. An integer is kept apart
-- from a float, as in Python.
use loopgraph_supervisor.Prelude.{ℤ, Bool, String}

mutual
  pub data Json (F : Type 0) : Type 0 where
    null : Json F
    bool : Bool → Json F
    int : ℤ → Json F
    float : F → Json F
    text : String → Json F
    list : Items F → Json F
    dict : Fields F → Json F

  pub data Items (F : Type 0) : Type 0 where
    nil : Items F
    item : Json F → Items F → Items F

  pub data Fields (F : Type 0) : Type 0 where
    end : Fields F
    field : String → Json F → Fields F → Fields F
