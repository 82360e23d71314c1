-- ===== src/Reconcile/Rollout/Standing.antt =====
-- What the pods are in a rolling update, by their names and by whether they are on the update
-- revision, and what the deletions of the operator make of them.
use mathlib.Core.List.{Memᴰ, Permᴰ}
use dragonfly_operator.Prelude.{
  ℕ, suc, ◌≤◌, ◌≡◌, refl, ap, ◌∙◌, String, Bool, true, false, ◌||◌, ◌==◌, List, [], ◌∷◌, map, arith,
  eq_refl, if◌then◌else◌,
}
use dragonfly_operator.Kube.{Pod}
use dragonfly_operator.Pods.{is_pod_on_latest_version, has_outdated}
use dragonfly_operator.Effects.Calls.{Call, History, Instance, M, delete_pod, get_pod}
use dragonfly_operator.Effects.Within.{Grows, grown, more, no_delete}
use dragonfly_operator.Reconcile.Rollout.Deleting.{Deletes}

-- A pod's name, and whether it is on the update revision.
abbrev pub Standing : Type 0
Standing = String × Bool

abbrev pub standing : String → Pod → Standing
standing revision pod = (pod.name, is_pod_on_latest_version pod revision)

-- The stateful set's controller makes a pod of the same name on the update revision.
abbrev pub come_back : Pod → Standing → Standing
come_back deleted (name, latest) = (name, name == deleted.name || latest)

-- The pods after the calls of the operator: the deleted ones have come back.
abbrev pub respond : History → List Standing → List Standing
respond [] pods = pods
respond (delete_pod pod ∷ calls) pods = map (come_back pod) (respond calls pods)
respond (call ∷ calls) pods = respond calls pods

-- The pods that the rolling update has not replaced.
unfoldable pub count_old : List Standing → ℕ
count_old [] = 0
count_old ((name, latest) ∷ pods) = let rest = count_old pods in if latest then rest else suc rest

respond-no_delete :
    (call : Call) (calls : History) (pods : List Standing)
    → no_delete call ≡ true
    → respond (call ∷ calls) pods ≡ respond calls pods
respond-no_delete (delete_pod pod) calls pods e = cc
respond-no_delete (get_pod ns name) calls pods e = refl
respond-no_delete _ calls pods e = refl

pub respond-Grows :
    (h k : History) (pods : List Standing) → Grows no_delete h k → respond k pods ≡ respond h pods
respond-Grows h k pods grown = refl
respond-Grows h k pods (more {k = earlier} call e g) =
    respond-no_delete call earlier pods e ∙ respond-Grows h earlier pods g

pub respond-Deletes {ℓ} :
    {A : Type ℓ} (m : M A) (s : Instance) (pod : Pod) (pods : List Standing)
    → s.calls ≡ []
    → Deletes m s pod
    → respond (m s).1.calls pods ≡ map (come_back pod) pods
respond-Deletes m s pod pods fresh d =
    respond-Grows (delete_pod pod ∷ d.earlier) (m s).1.calls pods d.after
    ∙ ap (map (come_back pod)) (respond-Grows s.calls d.earlier pods d.before)
    ∙ ap (λ (calls : History). map (come_back pod) (respond calls pods)) fresh

count_old-come_back_le :
    (deleted : Pod) (pods : List Standing)
    → count_old (map (come_back deleted) pods) ≤ count_old pods
unfolding count_old
count_old-come_back_le deleted [] = omega arith
count_old-come_back_le deleted ((name, latest) ∷ pods) =
    ground (arith, count_old-come_back_le deleted pods)

-- One old pod less, where the deleted one was old.
pub count_old-come_back :
    (revision : String) (deleted : Pod) (pods : List Pod)
    → Memᴰ deleted pods
    → is_pod_on_latest_version deleted revision ≡ false
    → suc (count_old (map (come_back deleted) (map (standing revision) pods)))
      ≤ count_old (map (standing revision) pods)
unfolding count_old
count_old-come_back revision deleted [] m old = elim m [ ]
count_old-come_back revision deleted (pod ∷ pods) (Memᴰ.head e) old =
    ground (arith, count_old-come_back_le deleted (map (standing revision) pods), eq_refl pod.name)
count_old-come_back revision deleted (pod ∷ pods) (Memᴰ.tail m) old =
    ground (arith, count_old-come_back revision deleted pods m old)

-- The order of the pods does not matter.
pub count_old-Permᴰ :
    {pods others : List Standing} → Permᴰ pods others → count_old pods ≡ count_old others
unfolding count_old
count_old-Permᴰ Permᴰ.nil = refl
count_old-Permᴰ (Permᴰ.cons e p) = ground (arith, ap (λ (x : Standing). x.1) e, count_old-Permᴰ p)
count_old-Permᴰ (Permᴰ.swap e f) =
    ground (arith, ap (λ (x : Standing). x.1) e, ap (λ (x : Standing). x.1) f)
count_old-Permᴰ (Permᴰ.trans p q) = count_old-Permᴰ p ∙ count_old-Permᴰ q

pub has_outdated-count_old :
    (revision : String) (pods : List Pod)
    → count_old (map (standing revision) pods) ≡ 0
    → has_outdated pods revision ≡ false
unfolding count_old has_outdated
has_outdated-count_old revision [] e = refl
has_outdated-count_old revision (pod ∷ pods) e =
    ground (arith, has_outdated-count_old revision pods)

pub count_old-has_outdated :
    (revision : String) (pods : List Pod)
    → has_outdated pods revision ≡ false
    → count_old (map (standing revision) pods) ≡ 0
unfolding count_old has_outdated
count_old-has_outdated revision [] h = refl
count_old-has_outdated revision (pod ∷ pods) h =
    ground (arith, count_old-has_outdated revision pods)
