-- ===== src/Reconcile/Lifecycle/Clients.antt =====
-- The open Redis clients over a run of the pod lifecycle controller.
use dragonfly_operator.Prelude.{◌∙◌, refl, String, Bool, Option, none, some}
use dragonfly_operator.Kube.{Pod}
use dragonfly_operator.Pods.{get_dragonfly_name}
use dragonfly_operator.Effects.Errors.{Result, ok, err}
use dragonfly_operator.Effects.Calls.{Env, History, get_pod}
use dragonfly_operator.Effects.Clients.{is_open-other}
use dragonfly_operator.Reconcile.Base.Clients.{NoneOpen, with_instance-NoneOpen}
use dragonfly_operator.Reconcile.Lifecycle.{reconcile_pod, for_name, for_pod, reconcile}
use dragonfly_operator.Reconcile.Lifecycle.Safety.{reconcile_pod-Within}

module _ (env : Env) (is_ipv4 : String → Bool) where
  for_name-NoneOpen :
      (pod : Pod) (name : Option String) (calls : History)
      → NoneOpen calls
      → NoneOpen (for_name env is_ipv4 pod name calls).1
  for_name-NoneOpen pod none calls h = h
  for_name-NoneOpen pod (some name) calls h =
      with_instance-NoneOpen (reconcile_pod env is_ipv4 pod) (reconcile_pod-Within env is_ipv4 pod)
        env pod.namespace name calls h

  for_pod-NoneOpen :
      (found : Result Pod) (calls : History)
      → NoneOpen calls
      → NoneOpen (for_pod env is_ipv4 found calls).1
  for_pod-NoneOpen (err e) calls h = h
  for_pod-NoneOpen (ok pod) calls h = for_name-NoneOpen pod (get_dragonfly_name pod) calls h

  -- If no Redis client is open before a run of the reconciler of the pods' life cycle, none is open
  -- after it: every client that it opens is closed, also on the ways out with an error.
  pub reconcile-NoneOpen :
      (namespace name : String) (calls : History)
      → NoneOpen calls
      → NoneOpen (reconcile env is_ipv4 namespace name calls).1
  unfolding reconcile
  reconcile-NoneOpen namespace name calls h =
      for_pod-NoneOpen _ _ (λ ip. is_open-other ip (get_pod namespace name) calls refl ∙ h ip)
