-- ===== src/Instance/Status/Detection.antt =====
-- When `detectRollingUpdate` starts a rolling update.
use mathlib.Core.List.{Memᴰ}
use dragonfly_operator.Prelude.{
  ℕ, ◌≡◌, ◌≢◌, refl, sym, ap, ◌∙◌, String, true, false, Option, none, some, List, [], ◌∷◌, All,
  arith, nat_eq, eq_refl, eq_iff, Bool-cases, ◌⊎◌, inl, inr,
}
use dragonfly_operator.Prelude.Int.{ℤ, pos, negsuc, eq_ℤ}
use dragonfly_operator.Prelude.Dict.{lookup}
use dragonfly_operator.Kube.{Pod, StatefulSet, DragonflyStatus, stateful_set_revision_label}
use dragonfly_operator.Pods.{is_value, is_pod_on_latest_version, has_outdated, need_rolling_update}
use dragonfly_operator.Effects.Errors.{ok}
use dragonfly_operator.Effects.Calls.{
  Env, History, Instance, ◌>>=◌, get_stateful_set, record_event, patch_dragonfly_status,
}
use dragonfly_operator.Effects.Changes.{changes}
use dragonfly_operator.Instance.Queries.{instance_labels}
use dragonfly_operator.Instance.Status.{detect_rolling_update, phase_rolling_update}

nat_eq_refl : (n : ℕ) → nat_eq n n ≡ true
nat_eq_refl n = ground arith

eq_ℤ_refl : (a : ℤ) → eq_ℤ a a ≡ true
eq_ℤ_refl (pos n) = nat_eq_refl n
eq_ℤ_refl (negsuc n) = nat_eq_refl n

eq_ℤ_sound : (a b : ℤ) → eq_ℤ a b ≡ true → a ≡ b
eq_ℤ_sound (pos m) (pos n) e = ap pos (ground arith)
eq_ℤ_sound (pos m) (negsuc n) e = cc
eq_ℤ_sound (negsuc m) (pos n) e = cc
eq_ℤ_sound (negsuc m) (negsuc n) e = ap negsuc (ground arith)

-- The pod has the label of the revision.
abbrev pub HasRevision : String → Pod → Type 0
HasRevision revision pod = lookup stateful_set_revision_label pod.labels ≡ some revision

is_pod_on_latest_version-HasRevision :
    (revision : String) (pod : Pod)
    → HasRevision revision pod
    → is_pod_on_latest_version pod revision ≡ true
unfolding is_pod_on_latest_version
is_pod_on_latest_version-HasRevision revision pod e = rw e (eq_refl revision)

is_value_sound :
    (found : Option String) (value : String) → is_value found value ≡ true → found ≡ some value
is_value_sound none value e = cc
is_value_sound (some v) value e = ground (arith, eq_iff v value)

has_outdated-none :
    (revision : String) (pods : List Pod)
    → All (HasRevision revision) pods
    → has_outdated pods revision ≡ false
unfolding has_outdated
has_outdated-none revision [] h = refl
has_outdated-none revision (pod ∷ pods) h =
    rw (is_pod_on_latest_version-HasRevision revision pod h.0) (has_outdated-none revision pods h.1)

has_outdated-some :
    (revision : String) (pods : List Pod) (pod : Pod)
    → Memᴰ pod pods
    → is_pod_on_latest_version pod revision ≡ false
    → has_outdated pods revision ≡ true
unfolding has_outdated
has_outdated-some revision [] pod m old = elim m [ ]
has_outdated-some revision (p ∷ pods) pod (Memᴰ.head e) old =
    rw (ap (λ (q : Pod). is_pod_on_latest_version q revision) (sym e) ∙ old) refl
has_outdated-some revision (p ∷ pods) pod (Memᴰ.tail m) old =
    elim (Bool-cases (is_pod_on_latest_version p revision)) [
      | inl latest ↦ rw latest (has_outdated-some revision pods pod m old)
      | inr first ↦ rw first refl
    ]

not_on_latest :
    (revision : String) (pod : Pod)
    → ¬ HasRevision revision pod
    → is_pod_on_latest_version pod revision ≡ false
unfolding is_pod_on_latest_version
not_on_latest revision pod n =
    elim (Bool-cases (is_value (lookup stateful_set_revision_label pod.labels) revision)) [
      | inl e ↦ absurd (n (is_value_sound _ revision e))
      | inr e ↦ e
    ]

not_equal : (a b : ℤ) → a ≢ b → eq_ℤ a b ≡ false
not_equal a b n = elim (Bool-cases (eq_ℤ a b)) [ inl e ↦ absurd (n (eq_ℤ_sound a b e)) | inr e ↦ e ]

need_rolling_update_updated :
    (pods : List Pod) (sts : StatefulSet)
    → sts.updated_replicas ≡ sts.replicas
    → need_rolling_update pods sts ≡ false
unfolding need_rolling_update
need_rolling_update_updated pods sts e =
    rw (ap (λ (n : ℤ). eq_ℤ n sts.replicas) e ∙ eq_ℤ_refl sts.replicas) refl

need_rolling_update_latest :
    (pods : List Pod) (sts : StatefulSet)
    → All (HasRevision sts.update_revision) pods
    → need_rolling_update pods sts ≡ false
unfolding need_rolling_update
need_rolling_update_latest pods sts h =
    rw (has_outdated-none sts.update_revision pods h) (ground arith)

need_rolling_update_outdated :
    (pods : List Pod) (sts : StatefulSet) (pod : Pod)
    → sts.updated_replicas ≢ sts.replicas
    → Memᴰ pod pods
    → ¬ HasRevision sts.update_revision pod
    → need_rolling_update pods sts ≡ true
unfolding need_rolling_update
need_rolling_update_outdated pods sts pod n m old =
    rw (not_equal sts.updated_replicas sts.replicas n)
      (has_outdated-some sts.update_revision pods pod m (not_on_latest sts.update_revision pod old))

module _ (env : Env) (s : Instance) where
  -- The history when the pods are listed.
  abbrev pub asked_stateful_set : History
  asked_stateful_set = get_stateful_set s.df.namespace s.df.name ∷ s.calls

  -- The status of a rolling update.
  abbrev pub rolling_status : DragonflyStatus
  rolling_status = record s.df.status { phase = phase_rolling_update }

  detect-run :
      (sts : StatefulSet) (pods : List Pod)
      → env.get_stateful_set s.calls s.df.namespace s.df.name ≡ ok sts
      → env.list_pods asked_stateful_set s.df.namespace (instance_labels s.df) ≡ ok pods
      → let (r, t) = detect_rolling_update env s in
        (need_rolling_update pods sts ≡ false
          → (r ≡ ok s.df.status) × (changes t.calls ≡ changes s.calls))
        × ((status : DragonflyStatus)
            → need_rolling_update pods sts ≡ true
            → r ≡ ok status
            → (status ≡ rolling_status)
              × (changes t.calls
                  ≡ record_event "Resources" "Performing a rollout"
                    ∷ patch_dragonfly_status s.df (record s.df { status = rolling_status })
                    ∷ record_event "Rollout" "Starting a rollout"
                    ∷ changes s.calls))
  unfolding detect_rolling_update ◌>>=◌ changes
  detect-run sts pods e f =
      (λ n. (ground arith, ground arith), λ status n g. (ground arith, ground arith))

  -- Given the stateful set and the pods that the API server answers with: where as many replicas are
  -- updated as the stateful set has, or all pods have the label of its update revision, the status is
  -- answered as it is, with no change made. Where this many are not updated, and one of the pods has
  -- another label of the revision or none, a detection that succeeds answers with the phase of a
  -- rolling update, and its changes are the patch of the custom resource to that phase and an event
  -- before and after it.
  pub detect_rolling_update_lem :
      (sts : StatefulSet) (pods : List Pod)
      → env.get_stateful_set s.calls s.df.namespace s.df.name ≡ ok sts
      → env.list_pods asked_stateful_set s.df.namespace (instance_labels s.df) ≡ ok pods
      → let (r, t) = detect_rolling_update env s in
        ((sts.updated_replicas ≡ sts.replicas) ⊎ All (HasRevision sts.update_revision) pods
          → (r ≡ ok s.df.status) × (changes t.calls ≡ changes s.calls))
        × ((pod : Pod) (status : DragonflyStatus)
            → sts.updated_replicas ≢ sts.replicas
            → Memᴰ pod pods
            → ¬ HasRevision sts.update_revision pod
            → r ≡ ok status
            → (status ≡ rolling_status)
              × (changes t.calls
                  ≡ record_event "Resources" "Performing a rollout"
                    ∷ patch_dragonfly_status s.df (record s.df { status = rolling_status })
                    ∷ record_event "Rollout" "Starting a rollout"
                    ∷ changes s.calls))
  detect_rolling_update_lem sts pods e f =
      let (still, rolling) = detect-run sts pods e f in
      (
        λ h. still (elim h [
          | inl updated ↦ need_rolling_update_updated pods sts updated
          | inr latest ↦ need_rolling_update_latest pods sts latest
        ]),
        λ pod status n m old g.
            rolling status (need_rolling_update_outdated pods sts pod n m old) g,
      )
