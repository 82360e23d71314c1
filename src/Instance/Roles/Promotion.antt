-- ===== src/Instance/Roles/Promotion.antt =====
-- What the methods that make a pod a master do, call by call.
use dragonfly_operator.Prelude.{String, Bool, not, Option, none, some, [], ◌∷◌, ◌++◌, ◌≡◌, arith}
use dragonfly_operator.Kube.{Pod}
use dragonfly_operator.Effects.Calls.{
  Env, History, Instance, ◌>>=◌, patch_pod, delete_pod, slave_of, config_set,
  repl_takeover as takeover,
}
use dragonfly_operator.Effects.Changes.{changes, connected}
use dragonfly_operator.Effects.Scripts.{Script, made, all_accepted, is_ok, is_err}
use dragonfly_operator.Instance.Roles.{
  mark_master, master_only_cron, replica_of_no_one, repl_takeover,
}

-- The change of the snapshot schedule, on top of the changes before it.
abbrev pub with_cron : String → Option String → History → History
with_cron ip none calls = calls
with_cron ip (some cron) calls = config_set ip "snapshot_cron" cron ∷ calls

-- Where snapshots are taken on the master only, the schedule is set, by this history.
abbrev pub cron_script : Env → String → Option String → History → Script
cron_script env ip none h = []
cron_script env ip (some cron) h =
    (config_set ip "snapshot_cron" cron, not (is_err (env.config_set h ip "snapshot_cron" cron)))
    ∷ []

module _ (env : Env) (is_ipv4 : String → Bool) (pod : Pod) (s : Instance) where
  -- The calls of a promotion: `SLAVEOF NO ONE`, the schedule, and the patch of the pod.
  abbrev pub promotion : Script
  promotion =
      let ip = pod.pod_ip in
      let h = connected ip s in
      let asked = slave_of ip "NO" "ONE" ∷ h in
      let cron = master_only_cron s.df.spec.snapshot in
      let marked = mark_master pod ip in
      (slave_of ip "NO" "ONE", is_ok (env.slave_of h ip "NO" "ONE")) ∷ cron_script env ip cron asked
      ++ ((patch_pod pod marked, not (is_err (env.patch_pod (with_cron ip cron asked) pod marked)))
          ∷ [])

  -- A promotion makes the changes of `promotion`, in this order, up to and including the first one that
  -- is refused, and it fails exactly if one is. So a pod is labelled as the master only after it has
  -- answered `OK` to `SLAVEOF NO ONE` and, where snapshots are taken on the master only, has taken
  -- the schedule.
  pub replica_of_no_one-changes :
      let (r, t) = replica_of_no_one env is_ipv4 pod s in
      (changes t.calls ≡ made promotion (changes s.calls))
      × (is_err r ≡ not (all_accepted promotion))
  unfolding replica_of_no_one ◌>>=◌ changes
  replica_of_no_one-changes = (ground arith, ground arith)

module _ (env : Env) (is_ipv4 : String → Bool) (new_master old_master : Pod) (s : Instance) where
  -- The calls of a takeover: `REPLTAKEOVER`, the schedule, the patch of the new master, and the
  -- deletion of the old one.
  abbrev pub handover : Script
  handover =
      let ip = new_master.pod_ip in
      let h = connected ip s in
      let asked = takeover ip "5" ∷ h in
      let cron = master_only_cron s.df.spec.snapshot in
      let marked = mark_master new_master ip in
      let set = with_cron ip cron asked in
      (takeover ip "5", is_ok (env.repl_takeover h ip "5")) ∷ cron_script env ip cron asked
      ++ ((patch_pod new_master marked, not (is_err (env.patch_pod set new_master marked)))
          ∷ (
            delete_pod old_master,
            not (is_err (env.delete_pod (patch_pod new_master marked ∷ set) old_master)),
          )
          ∷ [])

  -- A takeover makes the changes of `handover`, in this order, up to and including the first one that is
  -- refused, and it fails exactly if one is. So the old master is deleted only after the new one has
  -- answered `OK` to `REPLTAKEOVER`, and after the patch by which its label says that it is the
  -- master has been accepted.
  pub repl_takeover-changes :
      let (r, t) = repl_takeover env is_ipv4 new_master old_master s in
      (changes t.calls ≡ made handover (changes s.calls)) × (is_err r ≡ not (all_accepted handover))
  unfolding repl_takeover ◌>>=◌ changes
  repl_takeover-changes = (ground arith, ground arith)
