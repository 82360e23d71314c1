-- ===== src/Resources/Backing.antt =====
-- The mounts of a draft and the volumes behind them (internal/resources/resources.go).
use dragonfly_operator.Prelude.{
  ◌≡◌, refl, String, Bool, true, ◌||◌, none, some, List, [], ◌∷◌, ◌++◌, ◌==◌, arith, All,
  All-append,
}
use dragonfly_operator.Kube.Objects.{Nilable, Volume, VolumeMount, PersistentVolumeClaim}
use dragonfly_operator.Resources.{has_name}
use dragonfly_operator.Resources.Generate.{volume_name}
use dragonfly_operator.Resources.Draft.{Draft, append, items}

abbrev pub claim_name : PersistentVolumeClaim → String
claim_name template = template.name

-- A volume, or a claim of which each pod gets its own volume, has the name.
unfoldable pub is_backed :
    Nilable (List Volume) → Nilable (List PersistentVolumeClaim) → String → Bool
is_backed volumes claims name =
    has_name volume_name name (items volumes) || has_name claim_name name (items claims)

abbrev pub Backed :
    Nilable (List Volume)
    → Nilable (List PersistentVolumeClaim)
    → Nilable (List VolumeMount)
    → Type 0
Backed volumes claims mounts =
    All (λ (mount : VolumeMount). is_backed volumes claims mount.name ≡ true) (items mounts)

-- All mounts of the draft's container.
unfoldable pub IsBacked : Draft → Type 0
unfolding is_backed
IsBacked draft = Backed draft.pod.volumes draft.spec.volume_claim_templates draft.main.volume_mounts

module _ {ℓ κ} {A : Type ℓ} {P Q : A → Type κ} where
  pub All-weaken : (w : (a : A) → P a → Q a) (xs : List A) → All P xs → All Q xs
  All-weaken w [] h = tt
  All-weaken w (x ∷ xs) h = (w x h.0, All-weaken w xs h.1)

items-append {ℓ} :
    {A : Type ℓ} (xs : Nilable (List A)) (y : A) → items (append xs (y ∷ [])) ≡ items xs ++ (y ∷ [])
items-append none y = refl
items-append (some xs) y = refl

module _ {ℓ} {T : Type ℓ} (get_name : T → String) where
  pub has_name-append :
      (name : String) (xs ys : List T)
      → has_name get_name name (xs ++ ys) ≡ (has_name get_name name xs || has_name get_name name ys)
  unfolding has_name
  has_name-append name [] ys = refl
  has_name-append name (x ∷ xs) ys = ground (arith, has_name-append name xs ys)

  has_name-add :
      (name : String) (xs : Nilable (List T)) (y : T)
      → has_name get_name name (items (append xs (y ∷ [])))
        ≡ (has_name get_name name (items xs) || get_name y == name)
  unfolding has_name
  has_name-add name xs y =
      rw (items-append xs y, has_name-append name (items xs) (y ∷ [])) ground arith

module _ (volumes more_volumes : Nilable (List Volume))
    (claims more_claims : Nilable (List PersistentVolumeClaim))
    (mounts : Nilable (List VolumeMount)) (mount : VolumeMount) where
  -- A mount is added, and nothing is taken away that backs one.
  Backed-add :
      ((name : String)
        → is_backed volumes claims name ≡ true
        → is_backed more_volumes more_claims name ≡ true)
      → is_backed more_volumes more_claims mount.name ≡ true
      → Backed volumes claims mounts
      → Backed more_volumes more_claims (append mounts (mount ∷ []))
  Backed-add keeps backs h = rw (items-append mounts mount) (
      All-append _ (items mounts) (mount ∷ []) (All-weaken (λ m. keeps m.name) (items mounts) h)
        (backs, tt))

module _ (volumes : Nilable (List Volume)) (claims : Nilable (List PersistentVolumeClaim))
    (mounts : Nilable (List VolumeMount)) (mount : VolumeMount) where
  -- A mount together with its volume.
  pub Backed-volume :
      (volume : Volume)
      → (volume.name == mount.name) ≡ true
      → Backed volumes claims mounts
      → Backed (append volumes (volume ∷ [])) claims (append mounts (mount ∷ []))
  unfolding is_backed
  Backed-volume volume e h =
      Backed-add volumes (append volumes (volume ∷ [])) claims claims mounts mount
        (λ name. rw (has_name-add volume_name name volumes volume) ground arith)
        (rw (has_name-add volume_name mount.name volumes volume, e) ground arith) h

  -- A mount together with its claim.
  pub Backed-claim :
      (template : PersistentVolumeClaim)
      → (template.name == mount.name) ≡ true
      → Backed volumes claims mounts
      → Backed volumes (append claims (template ∷ [])) (append mounts (mount ∷ []))
  unfolding is_backed
  Backed-claim template e h =
      Backed-add volumes volumes claims (append claims (template ∷ [])) mounts mount
        (λ name. rw (has_name-add claim_name name claims template) ground arith)
        (rw (has_name-add claim_name mount.name claims template, e) ground arith) h
