-- ===== src/Json.antt =====
-- The values that `json.loads` and `tomllib` hand to the programs, and what Python's operators do
-- with them. Floats are a parameter: a type with the operations that the programs use.
pub mod Floats
pub mod Access
pub mod Numbers
use replaybook.Prelude.{String, Bool, List, [], ◌∷◌}
use replaybook.Prelude.Int.{ℤ}

mutual
  pub data Value (F : Type 0) : Type 0 where
    null : Value F
    bool : Bool → Value F
    int : ℤ → Value F
    float : F → Value F
    str : String → Value F
    arr : Items F → Value F
    obj : Fields F → Value F

  pub data Items (F : Type 0) : Type 0 where
    nil : Items F
    cons : Value F → Items F → Items F

  -- A `dict` with text keys, in insertion order; the first entry of a key is the one that counts.
  pub data Fields (F : Type 0) : Type 0 where
    end : Fields F
    field : String → Value F → Fields F → Fields F

module _ {F : Type 0} where
  abbrev pub items_list : Items F → List (Value F)
  items_list nil = []
  items_list (cons v vs) = v ∷ items_list vs

  abbrev pub list_items : List (Value F) → Items F
  list_items [] = nil
  list_items (v ∷ vs) = cons v (list_items vs)

  abbrev pub fields_list : Fields F → List (String × Value F)
  fields_list end = []
  fields_list (field k v fs) = (k, v) ∷ fields_list fs
