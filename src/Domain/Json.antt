-- ===== src/Domain/Json.antt =====
-- The values that `json.dumps` prints, and what `sort_keys=True` does to them before they are
-- printed: the keys of every object in code point order.
use Prim.Native.String.{compare}
use Prim.Native.Nat.{Ordering}
use aiops_control_lab.Base.{String, Option, none, some, [], ◌∷◌, Dict}

mutual
  pub data Json : Type 0 where
    null : Json
    text : String → Json
    arr : Items → Json
    obj : Fields → Json

  pub data Items : Type 0 where
    nil : Items
    cons : Json → Items → Items

  pub data Fields : Type 0 where
    end : Fields
    field : String → Json → Fields → Fields

-- Keys that are equal do not occur in a dictionary.
abbrev pub insert_field : String → Json → Fields → Fields
insert_field k v end = field k v end
insert_field k v (field j w fs) =
    let rest = insert_field k v fs in
    elim (compare k j) [ Ordering.gt ↦ field j w rest | _ ↦ field k v (field j w fs) ]

unfoldable mutual
  pub sort_keys : Json → Json
  sort_keys null = null
  sort_keys (text t) = text t
  sort_keys (arr xs) = arr (sort_items xs)
  sort_keys (obj fs) = obj (sort_fields fs)

  pub sort_items : Items → Items
  sort_items nil = nil
  sort_items (cons x xs) = cons (sort_keys x) (sort_items xs)

  pub sort_fields : Fields → Fields
  sort_fields end = end
  sort_fields (field k v fs) = insert_field k (sort_keys v) (sort_fields fs)

-- A dictionary from texts to texts, as JSON.
unfoldable pub dict_fields : Dict String → Fields
dict_fields [] = end
dict_fields ((k, v) ∷ d) = field k (text v) (dict_fields d)

unfoldable pub optional_text : Option String → Json
optional_text none = null
optional_text (some t) = text t
