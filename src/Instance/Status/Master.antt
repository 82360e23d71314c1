-- ===== src/Instance/Status/Master.antt =====
-- What `getMaster` answers, and what `patchStatus` leaves behind.
use dragonfly_operator.Prelude.{
  Bool, true, false, List, [], ◌∷◌, ◌≡◌, refl, sym, ◌∙◌, ap, arith, if◌then◌else◌, All,
}
use dragonfly_operator.Kube.{Pod}
use dragonfly_operator.Pods.{is_healthy}
use dragonfly_operator.Effects.Errors.{ok}
use dragonfly_operator.Effects.Calls.{Env, Instance, ◌>>=◌, fail, proceed}
use dragonfly_operator.Effects.Outcome.{bind_ok, rewrapping_ok, pure_ok}
use dragonfly_operator.Instance.Queries.{is_pod_ready}
use dragonfly_operator.Instance.Queries.Health.{answers_true, is_pod_ready_lem}
use dragonfly_operator.Instance.Status.{healthy_masters, master_pods, the_one, get_master}

abbrev pub AreHealthy : List Pod → Type 0
AreHealthy = All (λ pod. is_healthy pod ≡ true)

module _ (env : Env) where
  is_pod_ready_healthy :
      (pod : Pod) (s : Instance) → (is_pod_ready env pod s).0 ≡ ok true → is_healthy pod ≡ true
  is_pod_ready_healthy pod s e = ground (arith, (is_pod_ready_lem env pod s).0, ap answers_true e)

  kept_healthy :
      (ready : Bool) (pod : Pod) (healthy : List Pod)
      → (ready ≡ true → is_healthy pod ≡ true)
      → AreHealthy healthy
      → AreHealthy (if ready then pod ∷ healthy else healthy)
  kept_healthy true pod healthy h k = (h refl, k)
  kept_healthy false pod healthy h k = k

  healthy_masters_healthy :
      (pods found : List Pod) (s : Instance)
      → (healthy_masters env pods s).0 ≡ ok found
      → AreHealthy found
  unfolding healthy_masters
  healthy_masters_healthy [] found s e = rw (sym (pure_ok [] found s e)) tt
  healthy_masters_healthy (pod ∷ pods) found s e =
      let (ready, was_ready, rest) = bind_ok _ _ s found e in
      let (healthy, were_healthy, last) = bind_ok _ _ _ found rest in
      rw (sym (pure_ok _ found _ last)) (
        kept_healthy ready pod healthy
          (λ h. is_pod_ready_healthy pod s (rewrapping_ok _ _ s true (was_ready ∙ ap ok h)))
          (healthy_masters_healthy pods healthy _ were_healthy))

  the_one_healthy :
      (pods : List Pod) (pod : Pod) (s : Instance)
      → AreHealthy pods
      → (the_one env pods s).0 ≡ ok pod
      → is_healthy pod ≡ true
  unfolding fail
  the_one_healthy [] pod s h e = cc
  the_one_healthy (p ∷ []) pod s h e = rw (sym (pure_ok p pod s e)) h.0
  the_one_healthy (p ∷ q ∷ pods) pod s h e = cc

  found_healthy :
      (pods : List Pod) (pod : Pod) (s : Instance)
      → (proceed (healthy_masters env pods s).0 (the_one env) (healthy_masters env pods s).1).0
        ≡ ok pod
      → is_healthy pod ≡ true
  unfolding ◌>>=◌
  found_healthy pods pod s e =
      let (healthy, were_healthy, last) =
        bind_ok (healthy_masters env pods) (the_one env) s pod e in
      the_one_healthy healthy pod _ (healthy_masters_healthy pods healthy s were_healthy) last

  -- The master that `getMaster` answers with is healthy: it is running, with its containers ready,
  -- and it is not terminating.
  pub get_master_healthy :
      (pod : Pod) (s : Instance) → (get_master env s).0 ≡ ok pod → is_healthy pod ≡ true
  unfolding get_master ◌>>=◌ fail
  get_master_healthy pod s e =
      let (pods, listed, rest) = bind_ok (master_pods env) _ s pod e in
      ground (arith, rest, found_healthy pods pod (master_pods env s).1)
