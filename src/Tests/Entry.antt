-- ===== src/Tests/Entry.antt =====
-- The theorem on the entry point where a health check is refused.
use dragonfly_operator.Prelude.{refl, Bool, true, false, none, List, ◌⊎◌}
use dragonfly_operator.Manager.{Start}
use dragonfly_operator.Manager.Entry.{Step, add_healthz_check, default_flags, main}
use dragonfly_operator.Manager.Entry.Started.{all_steps, IsStopped, IsFinished, main-Ends}

abbrev sample_start : Start
sample_start = record {
  watch_current_namespace = true;
  watch_namespace = none;
  pod_namespace = "cache";
  service_account_namespace = none;
  kube_config = none;
}

abbrev refuses_healthz : List Step → Step → Bool
refuses_healthz done (add_healthz_check name) = true
refuses_healthz done step = false

main-Ends_example :
    IsFinished refuses_healthz
      (all_steps default_flags sample_start)
      (main refuses_healthz default_flags sample_start)
    ⊎ IsStopped refuses_healthz
        (all_steps default_flags sample_start)
        (main refuses_healthz default_flags sample_start)
main-Ends_example = main-Ends refuses_healthz default_flags sample_start refl
