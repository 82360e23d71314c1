-- ===== src/Tests/Server.antt =====
-- The theorems on `reconcileResources` against a server, at a concrete one.
use dragonfly_operator.Prelude.{◌≡◌, refl, none}
use dragonfly_operator.Kube.Objects.{
  Object, stateful_set, service, disruption_budget, config, meta_of, with_meta,
}
use dragonfly_operator.Effects.Errors.{ok}
use dragonfly_operator.Effects.Calls.{Env}
use dragonfly_operator.Instance.Resources.{reconcile_resources}
use dragonfly_operator.Instance.Resources.Store.{
  Key, key_of, budget_key, Store, store_after, found, deleted, Serves,
}
use dragonfly_operator.Instance.Resources.Refinement.{find_at, wanted, reconcile_resources-wanted}
use dragonfly_operator.Tests.World.{sample_env, fresh}
use dragonfly_operator.Tests.Resources.{setup, sample_objects, sample_generated}

abbrev admit : Object → Object
admit object = with_meta (record (meta_of object) { others = "version 1" }) object

abbrev own : Object → Object
own object = object

abbrev nothing : Store
nothing key = none

-- It answers by what the earlier requests have left.
abbrev serving : Env
serving = record sample_env {
  get_object = λ h kind namespace name.
      found
        (store_after admit nothing h (record { kind = kind; namespace = namespace; name = name }));
  create_object = λ h object. ok tt;
  patch_object = λ h before after. ok tt;
  delete_budget =
      λ h namespace name. deleted (store_after admit nothing h (budget_key namespace name));
  patch_dragonfly_status = λ h before after. ok after;
}

key_of-admit : (object : Object) → key_of (admit object) ≡ key_of object
key_of-admit (stateful_set m a) = refl
key_of-admit (service m a) = refl
key_of-admit (disruption_budget m a) = refl
key_of-admit (config m a c) = refl

serving-Serves : Serves serving admit nothing
serving-Serves = record {
  keyed = λ key object e. cc;
  admit_key = key_of-admit;
  get = λ h key. refl;
  create = λ h object e. refl;
  patch = λ h before after e. refl;
  delete = λ h namespace name. refl;
  status = λ h before after. refl;
}

abbrev budget : Key
budget = budget_key "default" "df"

reconcile_resources-wanted_example :
    ((reconcile_resources serving setup fresh).0 ≡ ok tt)
    × (store_after admit nothing (reconcile_resources serving setup fresh).1.calls budget
        ≡ wanted admit own fresh.df sample_objects (store_after admit nothing fresh.calls) budget)
reconcile_resources-wanted_example =
    reconcile_resources-wanted serving-Serves sample_objects fresh
      (record { refer = λ object. refl; own_key = λ object. refl }) sample_generated budget

-- The server that holds the generated objects already.
abbrev holding : Store
holding key = find_at key sample_objects

abbrev at_rest : Env
at_rest = record serving {
  get_object = λ h kind namespace name.
      found
        (store_after admit holding h (record { kind = kind; namespace = namespace; name = name }));
  delete_budget =
      λ h namespace name. deleted (store_after admit holding h (budget_key namespace name));
}
