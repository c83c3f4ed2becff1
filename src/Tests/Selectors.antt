-- ===== src/Tests/Selectors.antt =====
-- Runs of the namespace node selector, and its theorems at concrete data.
use extender_scheduler.Prelude.{
  ◌≡◌, refl, String, true, false, ◌&&◌, ◌||◌, Option, none, some, [], ◌∷◌, if◌then◌else◌,
}
use extender_scheduler.Prelude.Text.{◌==◌}
use extender_scheduler.Prelude.Text.Paths.{join, split}
use extender_scheduler.Prelude.Dict.{Dict, lookup, insert, has_key, add_key}
use extender_scheduler.Cluster.{Node, external, Result, ok, err}
use extender_scheduler.Predicate.NodeSelector.{
  NsConfigItem, NsConfig, ConfigMap, system_label, item_name, empty_item, listed, insert_value,
  values_at, config_text, get_ns_config, select_with, Call, get_config_cm,
}
use extender_scheduler.Predicate.NodeSelector.ConfigLaws.{
  insert_value_lem, HasDefaulted, get_ns_config_lem,
}
use extender_scheduler.Predicate.NodeSelector.Permits.{select_with-permits}
use extender_scheduler.Predicate.NodeSelector.Cached.{after_calls, Origin, get_config_cm-Origin}
use extender_scheduler.Tests.Parser.{names, key_selectors, key_selectors-IsParsing}
use extender_scheduler.Tests.Samples.{web, node}

-- The item of the pod's namespace: nodes with the label `fast`, whatever its value.
abbrev pub shop : NsConfigItem
shop = record empty_item { match = some (("fast", "*" ∷ []) ∷ []) }

abbrev pub shop_config : NsConfig
shop_config = ("shop", shop) ∷ []

abbrev pub decode : String → Result (Option NsConfig)
decode text = if text == "shop text" then ok (some shop_config) else err (external "no json")

abbrev pub shop_map : ConfigMap
shop_map = record { items = some ((item_name, "shop text") ∷ []) }

abbrev labelled : Dict String → Node
labelled labels = record (node "n1") { labels = labels }

-- The programs that the runs evaluate.
unfoldable selecting : Unit {0}
unfolding add_key has_key lookup insert insert_value join split config_text get_ns_config
    select_with
selecting = tt

select_run :
    (select_with (key_selectors decode) shop_map web (labelled (("fast", "") ∷ [])) ≡ ok true)
    × (select_with (key_selectors decode) shop_map web (labelled []) ≡ ok false)
    × (select_with
          (key_selectors decode)
          shop_map
          web
          (labelled (("fast", "x") ∷ (system_label, "") ∷ []))
        ≡ ok false)
unfolding selecting
select_run = (refl, refl, refl)

select_with-permits_example :
    select_with (key_selectors decode) shop_map web (labelled (("fast", "x") ∷ [])) ≡ ok true
unfolding selecting
select_with-permits_example =
    select_with-permits (key_selectors decode) names (key_selectors-IsParsing decode) shop_map web
      (labelled (("fast", "x") ∷ [])) (refl, (refl, tt))

get_ns_config_lem_example :
    (made : NsConfig) × (get_ns_config decode (some shop_map) (some ("shop" ∷ "new" ∷ []))
      ≡ some (some made))
    × ((ns : String) (item : NsConfigItem)
        → lookup ns shop_config ≡ some item
        → HasDefaulted item ns made)
    × ((ns : String)
        → lookup ns shop_config ≡ none
        → has_key ns ("shop" ∷ "new" ∷ []) ≡ true
        → HasDefaulted
            (record { match = none; must_match = none; not_match = none; must_not_match = none })
            ns
            made)
    × ((ns : String)
        → lookup ns shop_config ≡ none
        → has_key ns ("shop" ∷ "new" ∷ []) ≡ false
        → lookup ns made ≡ none)
unfolding selecting
get_ns_config_lem_example =
    get_ns_config_lem decode (some shop_map) (some ("shop" ∷ "new" ∷ [])) shop_config refl

insert_run :
    insert_value "zone" "b,c" (("zone", "a" ∷ "b" ∷ []) ∷ []) ≡ ("zone", "a" ∷ "b" ∷ "c" ∷ []) ∷ []
unfolding selecting
insert_run = refl

insert_value_lem_example :
    has_key "c" (values_at "zone" (insert_value "zone" "b,c" (("zone", "a" ∷ []) ∷ []))) ≡ (
      has_key "c" (values_at "zone" (("zone", "a" ∷ []) ∷ []))
      || ("zone" == "zone" && has_key "c" (listed "b,c")))
insert_value_lem_example = insert_value_lem "zone" "b,c" (("zone", "a" ∷ []) ∷ []) "zone" "c"

abbrev first : Call
first = record { start = 10; reply = ok (some shop_map); arrival = 12 }

abbrev second : Call
second = record { start = 20; reply = err (external "down"); arrival = 21 }

get_config_cm-Origin_example :
    Origin (first ∷ []) second (get_config_cm second (after_calls (first ∷ []))).0
get_config_cm-Origin_example = get_config_cm-Origin (first ∷ []) second
