-- ===== src/Instance/Objects/Ports.antt =====
-- The node ports that `reconcileResources` keeps (internal/controller/dragonfly_instance.go).
use mathlib.Core.List.{Memᴰ}
use dragonfly_operator.Prelude.{
  ◌≡◌, refl, sym, ap, false, ◌==◌, none, some, List, [], ◌∷◌, map, All, eq_refl, Bool-cases, inl,
  inr,
}
use dragonfly_operator.Kube.Objects.{Nilable, ServicePort}
use dragonfly_operator.Resources.Draft.{items}
use dragonfly_operator.Instance.Objects.{preserve_node_port, preserve_ports}

-- No two ports have the same name.
abbrev pub AreDistinct : List ServicePort → Type 0
AreDistinct [] = Unit
AreDistinct (p ∷ ports) =
    All (λ (q : ServicePort). (q.name == p.name) ≡ false) ports × AreDistinct ports

abbrev pub HasDistinctPorts : Nilable (List ServicePort) → Type 0
HasDistinctPorts none = Unit
HasDistinctPorts (some ports) = AreDistinct ports

-- Only the node port changes.
preserve_node_port-fields :
    (p : ServicePort) (existing : List ServicePort)
    → preserve_node_port p existing
      ≡ record p { node_port = (preserve_node_port p existing).node_port }
unfolding preserve_node_port
preserve_node_port-fields p [] = refl
preserve_node_port-fields p (e ∷ existing) = elim (Bool-cases (p.name == e.name)) [
  | inl same ↦ rw same refl
  | inr other ↦ rw other (preserve_node_port-fields p existing)
]

preserve_node_port-name :
    (p : ServicePort) (existing : List ServicePort) → (preserve_node_port p existing).name ≡ p.name
preserve_node_port-name p existing =
    ap (λ (q : ServicePort). q.name) (preserve_node_port-fields p existing)

All-Memᴰ {ℓ κ} : {A : Type ℓ} (P : A → Type κ) {x : A} (xs : List A) → Memᴰ x xs → All P xs → P x
All-Memᴰ P [] m h = elim m [ ]
All-Memᴰ P (y ∷ xs) (Memᴰ.head e) h = rw e (h.0)
All-Memᴰ P (y ∷ xs) (Memᴰ.tail m) h = All-Memᴰ P xs m h.1

map_on {ℓ κ} :
    {A : Type ℓ} {B : Type κ} (f g : A → B) (xs : List A)
    → ((x : A) → Memᴰ x xs → f x ≡ g x)
    → map f xs ≡ map g xs
map_on f g [] h = refl
map_on f g (x ∷ xs) h = rw (h x (Memᴰ.head refl), map_on f g xs (λ y m. h y (Memᴰ.tail m))) refl

module _ (existing : List ServicePort) where
  abbrev kept : ServicePort → ServicePort
  kept p = preserve_node_port p existing

  -- A port finds itself among the ports that were kept.
  preserve_node_port-kept :
      (p : ServicePort) (ports : List ServicePort)
      → AreDistinct ports
      → Memᴰ p ports
      → preserve_node_port p (map kept ports) ≡ kept p
  unfolding preserve_node_port
  preserve_node_port-kept p [] d m = elim m [ ]
  preserve_node_port-kept p (q ∷ ports) d (Memᴰ.head e) =
      let named = preserve_node_port-name q existing in
      rw (e, named, eq_refl q.name) (sym (preserve_node_port-fields q existing))
  preserve_node_port-kept p (q ∷ ports) d (Memᴰ.tail m) =
      rw
        (
          preserve_node_port-name q existing,
          All-Memᴰ (λ (r : ServicePort). (r.name == q.name) ≡ false) ports m d.0,
        )
        (preserve_node_port-kept p ports d.1 m)

-- Keeping the node ports once more changes nothing.
pub preserve_ports-idempotent :
    (ports existing : Nilable (List ServicePort))
    → HasDistinctPorts ports
    → preserve_ports ports (preserve_ports ports existing) ≡ preserve_ports ports existing
preserve_ports-idempotent none existing d = refl
preserve_ports-idempotent (some ports) existing d =
    ap some (map_on _ _ ports (λ p m. preserve_node_port-kept (items existing) p ports d m))
