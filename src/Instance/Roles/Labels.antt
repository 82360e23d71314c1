-- ===== src/Instance/Roles/Labels.antt =====
-- What the patches of a pod's labels, annotations and conditions say.
use dragonfly_operator.Prelude.{
  ℕ, String, Bool, true, false, Option, none, some, List, [], ◌∷◌, ◌≡◌, ◌≢◌, ◌==◌, arith, eq_iff,
  if◌then◌else◌,
}
use dragonfly_operator.Prelude.Dict.{lookup, insert, lookup-insert, lookup-erase}
use dragonfly_operator.Kube.{
  Pod, PodCondition, master, replica, role_label_key, master_ip_label_key, master_ip_annotation_key,
}
use dragonfly_operator.Pods.{is_master, is_replica}
use dragonfly_operator.Instance.Roles.{mark_master, mark_replica, has_condition, set_condition}

-- A pod that is marked as a master has the role of a master and no address of another master among
-- its labels, its annotation is the given address, and every other label is as it was.
mark_master_lem :
    (pod : Pod) (ip : String)
    → let marked = mark_master pod ip in
      (is_master marked ≡ true)
      × (lookup master_ip_label_key marked.labels ≡ none)
      × (lookup master_ip_annotation_key marked.annotations ≡ some ip)
      × ((key : String)
          → key ≢ role_label_key
          → key ≢ master_ip_label_key
          → lookup key marked.labels ≡ lookup key pod.labels)
unfolding mark_master is_master
mark_master_lem pod ip = (
  simp (lookup-erase, lookup-insert),
  simp lookup-erase,
  simp lookup-insert,
  λ key h k. ground (
    arith,
    lookup-erase key master_ip_label_key (insert role_label_key master pod.labels),
    lookup-insert key role_label_key master pod.labels,
    eq_iff role_label_key key,
    eq_iff master_ip_label_key key,
  ),
)

-- A pod that is marked as a replica has the role of a replica, its annotation is the address of the
-- master, its label is that address too if the address is one of IPv4, and every other label is as
-- it was.
mark_replica_lem :
    (is_ipv4 : Bool) (pod : Pod) (ip : String)
    → let marked = mark_replica is_ipv4 pod ip in
      (is_replica marked ≡ true)
      × (lookup master_ip_annotation_key marked.annotations ≡ some ip)
      × (lookup master_ip_label_key marked.labels
          ≡ (if is_ipv4 then some ip else lookup master_ip_label_key pod.labels))
      × ((key : String)
          → key ≢ role_label_key
          → key ≢ master_ip_label_key
          → lookup key marked.labels ≡ lookup key pod.labels)
unfolding mark_replica is_replica
mark_replica_lem true pod ip = (
  simp lookup-insert,
  simp lookup-insert,
  simp lookup-insert,
  λ key h k. ground (
    arith,
    lookup-insert key master_ip_label_key ip (insert role_label_key replica pod.labels),
    lookup-insert key role_label_key replica pod.labels,
    eq_iff role_label_key key,
    eq_iff master_ip_label_key key,
  ),
)
mark_replica_lem false pod ip = (
  simp lookup-insert,
  simp lookup-insert,
  simp lookup-insert,
  λ key h k.
      ground
        (arith, lookup-insert key role_label_key replica pod.labels, eq_iff role_label_key key),
)

-- The status of the first condition of a type.
unfoldable pub status_of : String → List PodCondition → Option String
status_of type [] = none
status_of type (c ∷ conditions) =
    if c.type == type then some c.status else status_of type conditions

-- After a change of a condition, the first condition of its type has the given status, the first
-- condition of every other type has the status that it had, and a second look finds nothing to do.
pub set_condition_lem :
    (type status : String) (now : ℕ) (conditions : List PodCondition)
    → let changed = set_condition type status now conditions in
      (status_of type changed ≡ some status)
      × ((other : String) → other ≢ type → status_of other changed ≡ status_of other conditions)
      × (has_condition type status changed ≡ true)
unfolding set_condition has_condition status_of
set_condition_lem type status now [] = (
  ground (arith, eq_iff type type),
  λ other h. ground (arith, eq_iff type other),
  ground (arith, eq_iff type type, eq_iff status status),
)
set_condition_lem type status now (c ∷ conditions) =
    let (a, b, d) = set_condition_lem type status now conditions in
    (
      ground (arith, eq_iff type type),
      λ other h. ground (arith, b other h, eq_iff c.type other, eq_iff c.type type),
      ground (arith, eq_iff type type, eq_iff status status),
    )
