-- ===== src/Predicate/ConfigServer/EditLaws.antt =====
-- pkg/algorithm/predicate/namespaces_nodeselector_httpserver.go: what adding, updating and deleting a key
-- do to the configuration.
use extender_scheduler.Prelude.{◌≡◌, ◌≢◌, String, false, none, some, List}
use extender_scheduler.Prelude.Text.{◌==◌}
use extender_scheduler.Prelude.Dict.{lookup, has_key}
use extender_scheduler.Predicate.NodeSelector.{LabelValues, NsConfig, listed, values_at}
use extender_scheduler.Predicate.ConfigServer.{
  Edit, changed, refused, not_exist, is_exist, Operation, add, delete, update, MatchType, labels_of,
  set_labels, item_or_empty,
}

-- What the key has after an operation that succeeds.
abbrev pub HasEntry : Operation → (key value : String) → LabelValues → Type 0
HasEntry delete key value lvs = lookup key lvs ≡ none
HasEntry add key value lvs = (x : String) → has_key x (values_at key lvs) ≡ has_key x (listed value)
HasEntry update key value lvs =
    (x : String) → has_key x (values_at key lvs) ≡ has_key x (listed value)

pub record IsEdited (operation : Operation) (key value : String) (before after : LabelValues)
    : Type 0 where
  pub entry : HasEntry operation key value after
  pub others : (k : String) → (key == k) ≡ false → lookup k after ≡ lookup k before

-- A key may be added that is not there, and updated or deleted if it is.
abbrev pub IsAllowed : Operation → String → LabelValues → Type 0
IsAllowed add key labels = lookup key labels ≡ none
IsAllowed delete key labels = (values : List String) × (lookup key labels ≡ some values)
IsAllowed update key labels = (values : List String) × (lookup key labels ≡ some values)

-- The cases of an operation on labels: a key that is added twice, a key that is missing, or a change.
pub data Outcome {A : Type 0} (operation : Operation) (key : String) (labels : LabelValues)
    (IsAfter : A → Type 0) : Edit A → Type 0 where
  existed :
      (values : List String)
      → operation ≡ add
      → lookup key labels ≡ some values
      → Outcome operation key labels IsAfter (refused (is_exist key))
  missing :
      operation ≢ add
      → lookup key labels ≡ none
      → Outcome operation key labels IsAfter (refused (not_exist key))
  edited :
      (a : A)
      → IsAllowed operation key labels
      → IsAfter a
      → Outcome operation key labels IsAfter (changed a)

-- The configuration after a change of one kind of labels of one namespace.
pub record IsEditedConfig (operation : Operation) (kind : MatchType) (namespace key value : String)
    (before after : NsConfig) : Type 0 where
  pub labels : LabelValues
  pub labels_edited :
      IsEdited operation key value (labels_of kind (item_or_empty (lookup namespace before))) labels
  pub item :
      lookup namespace after
      ≡ some (set_labels kind labels (item_or_empty (lookup namespace before)))
  pub namespaces : (ns : String) → (namespace == ns) ≡ false → lookup ns after ≡ lookup ns before
