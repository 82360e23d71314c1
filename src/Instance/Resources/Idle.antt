-- ===== src/Instance/Resources/Idle.antt =====
-- A run of `reconcileResources` that finds nothing to do (internal/controller/dragonfly_instance.go).
use dragonfly_operator.Prelude.{◌≡◌, some}
use dragonfly_operator.Kube.Objects.{Object}
use dragonfly_operator.Effects.Calls.{Instance}
use dragonfly_operator.Instance.Objects.{preserve_immutable}
use dragonfly_operator.Instance.Objects.Meaning.{SameObject}
use dragonfly_operator.Instance.Resources.Store.{key_of, Store}

-- The object is there, and it is the same as the wanted one with the immutable fields of the one that is
-- there.
pub record IsSettled (own : Object → Object) (store : Store) (desired : Object) : Type 0 where
  pub object : Object
  pub held : store (key_of desired) ≡ some object
  pub same : SameObject (preserve_immutable (own desired) object) object
