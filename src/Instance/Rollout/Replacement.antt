-- ===== src/Instance/Rollout/Replacement.antt =====
-- Which replica a step of a rolling update deletes.
use mathlib.Core.List.{Memᴰ}
use dragonfly_operator.Prelude.{
  ◌≡◌, refl, ◌∙◌, ap, String, Bool, true, false, Option, none, some, List, [], ◌∷◌, arith, All,
  Bool-cases, ◌≢◌, inl, inr,
}
use mathlib.Core.Bool.{false≢true}
use dragonfly_operator.Text.{text_lt}
use dragonfly_operator.Kube.{Pod}
use dragonfly_operator.Pods.{is_pod_on_latest_version, has_outdated}
use dragonfly_operator.Effects.Errors.{ok}
use dragonfly_operator.Effects.Calls.{Env, Instance, ◌>>=◌, wrapping, delete_pod, record_event}
use dragonfly_operator.Effects.Changes.{changes, changes-Grows}
use dragonfly_operator.Effects.Outcome.{bind_run, rewrapping_run}
use dragonfly_operator.Effects.Within.{Within-rewrapping, only_asks-PermitsAsking}
use dragonfly_operator.Instance.Footprint.{get_master-Within}
use dragonfly_operator.Instance.Status.{get_master}
use dragonfly_operator.Instance.Rollout.Sorting.{
  IsFirst, IsSorted, text_lt_irrefl, has_terminating-sort_by_name, has_outdated-sort_by_name,
  sort_by_name-Memᴰ, sort_by_name-IsSorted,
}
use dragonfly_operator.Instance.Rollout.Gate.{All-sort_by_name}
use dragonfly_operator.Instance.Rollout.Deletions.{find_outdated_lem}
use dragonfly_operator.Instance.Rollout.{
  has_terminating, replace_one, update_replicas, sort_by_name, find_outdated,
}

module _ (revision : String) where
  -- No outdated pod of the list has a smaller name.
  abbrev pub IsNext : Pod → Pod → Type 0
  IsNext p q = is_pod_on_latest_version q revision ≡ false → text_lt q.name p.name ≡ false

  IsFirst-IsNext : (p q : Pod) (pods : List Pod) → p ≡ q → IsFirst q pods → All (IsNext p) pods
  IsFirst-IsNext p q [] same h = tt
  IsFirst-IsNext p q (r ∷ pods) same (k, ks) = (λ e. rw same k, IsFirst-IsNext p q pods same ks)

  find_outdated-IsNext :
      (pods : List Pod) (p : Pod)
      → IsSorted pods
      → find_outdated pods revision ≡ some p
      → All (IsNext p) pods
  unfolding find_outdated
  find_outdated-IsNext [] p h e = tt
  find_outdated-IsNext (q ∷ pods) p (k, ks) e =
      elim (Bool-cases (is_pod_on_latest_version q revision)) [
        | inl l ↦ (λ f. cc, find_outdated-IsNext pods p ks (ground arith))
        | inr l ↦
            let same : p ≡ q = ground arith in
            (λ f. rw same (text_lt_irrefl q.name), IsFirst-IsNext p q pods same k)
      ]

pub find_outdated_some :
    (pods : List Pod) (revision : String)
    → has_outdated pods revision ≡ true
    → find_outdated pods revision ≢ none
unfolding has_outdated find_outdated
find_outdated_some [] revision h = absurd (false≢true h)
find_outdated_some (pod ∷ pods) revision h = ground (arith, find_outdated_some pods revision)

pub some_of : (r : Option Pod) → r ≢ none → (p : Pod) × (r ≡ some p)
some_of none h = absurd (h refl)
some_of (some p) h = (p, refl)

pub find_outdated-Memᴰ :
    (pods : List Pod) (revision : String) (p : Pod)
    → find_outdated pods revision ≡ some p
    → Memᴰ p pods
unfolding find_outdated
find_outdated-Memᴰ [] revision p e = cc
find_outdated-Memᴰ (q ∷ pods) revision p e =
    elim (Bool-cases (is_pod_on_latest_version q revision)) [
      | inl l ↦ Memᴰ.tail (find_outdated-Memᴰ pods revision p (ground arith))
      | inr l ↦ Memᴰ.head (ground arith)
    ]

module _ (env : Env) (is_ipv4 : String → Bool) (revision : String) where
  replace_one-deletes :
      (sorted : List Pod) (p : Pod) (s : Instance)
      → has_terminating sorted ≡ false
      → find_outdated sorted revision ≡ some p
      → changes (replace_one env is_ipv4 sorted revision s).1.calls
        ≡ delete_pod p ∷ record_event "Rollout" "Deleting replica" ∷ changes s.calls
  unfolding replace_one ◌>>=◌ changes
  replace_one-deletes sorted p s h e = ground arith

  -- What a step does for the outdated replica of the smallest name.
  replaces-IsNext :
      (replicas : List Pod) (master p : Pod) (s : Instance)
      → (get_master env s).0 ≡ ok master
      → has_terminating replicas ≡ false
      → find_outdated (sort_by_name replicas) revision ≡ some p
      → Memᴰ p replicas
        × (is_pod_on_latest_version p revision ≡ false)
        × All (IsNext revision p) replicas
        × (changes (update_replicas env is_ipv4 replicas revision s).1.calls
            ≡ delete_pod p ∷ record_event "Rollout" "Deleting replica" ∷ changes s.calls)
  unfolding update_replicas
  replaces-IsNext replicas master p s m h e =
      let sorted = sort_by_name replicas in
      let asked = wrapping "failed to get master before deleting replica" (get_master env) in
      (
        sort_by_name-Memᴰ replicas (find_outdated-Memᴰ sorted revision p e),
        find_outdated_lem revision env is_ipv4 sorted p e,
        All-sort_by_name env is_ipv4 (IsNext revision p) replicas
            (find_outdated-IsNext revision sorted p (sort_by_name-IsSorted replicas) e),
        ap (λ x. changes x.1.calls)
              (bind_run asked (λ current. replace_one env is_ipv4 sorted revision) s master
                (rewrapping_run _ (get_master env) s master m))
            ∙ replace_one-deletes sorted p (asked s).1 (has_terminating-sort_by_name replicas ∙ h) e
            ∙ ap (λ calls. delete_pod p ∷ record_event "Rollout" "Deleting replica" ∷ calls)
                (changes-Grows
                  ((Within-rewrapping _ (get_master-Within only_asks-PermitsAsking env)).at
                    s).grows),
      )

  -- With a master that is healthy, no replica terminating and some replica outdated, a step makes
  -- exactly one deletion, with its event: of one of the outdated replicas, and of none but those with
  -- the smallest name, in whatever order the API server lists the replicas.
  pub update_replicas-IsNext :
      (replicas : List Pod) (master : Pod) (s : Instance)
      → (get_master env s).0 ≡ ok master
      → has_terminating replicas ≡ false
      → has_outdated replicas revision ≡ true
      → (p : Pod) × Memᴰ p replicas
        × (is_pod_on_latest_version p revision ≡ false)
        × All (IsNext revision p) replicas
        × (changes (update_replicas env is_ipv4 replicas revision s).1.calls
            ≡ delete_pod p ∷ record_event "Rollout" "Deleting replica" ∷ changes s.calls)
  update_replicas-IsNext replicas master s m h o =
      let sorted = sort_by_name replicas in
      let some_outdated =
        find_outdated_some sorted revision (has_outdated-sort_by_name replicas revision ∙ o) in
      let (p, e) = some_of (find_outdated sorted revision) some_outdated in
      let (listed, outdated, next, changed) = replaces-IsNext replicas master p s m h e in
      (p, listed, outdated, next, changed)
