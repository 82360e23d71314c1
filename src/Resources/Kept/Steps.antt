-- ===== src/Resources/Kept/Steps.antt =====
-- The blocks of `GenerateDragonflyResources`, in their order (internal/resources/resources.go).
use dragonfly_operator.Prelude.{
  ◌≡◌, refl, sym, Bool-cases, inl, inr, Bool, true, false, Option, none, some, List, [], ◌∷◌, ◌==◌,
  if◌then◌else◌,
}
use dragonfly_operator.Kube.{Dragonfly, DragonflySpec, Tiering, Snapshot, Authentication}
use dragonfly_operator.Kube.Objects.{Container, Volume, VolumeMount, PersistentVolumeClaim, PodSpec}
use dragonfly_operator.Effects.Errors.{ok}
use dragonfly_operator.Resources.Draft.{
  Draft, with_main, with_pod, add_mount, add_volume, add_claim,
}
use dragonfly_operator.Resources.Features.{
  tiering_claim, add_readiness_gate, set_pod_management_policy, set_init_containers,
  set_pod_security_context, set_container_security_context, set_resources, add_memcached, add_acl,
  add_tiering_claim, add_tiering, add_features,
}
use dragonfly_operator.Resources.Storage.{
  has_two_claims, has_cron_only, add_snapshot_of, add_snapshot, add_snapshot_claim,
  add_existing_claim, snapshot_args, add_tls, set_template_metadata, set_placement, add_password,
  add_client_ca, add_authentication,
}
use dragonfly_operator.Resources.Probes.{append_probe_volumes_and_mounts, set_probes}
use dragonfly_operator.Resources.Kept.{Kept}

module _ {κ} (df : Dragonfly) (P : Draft → Type κ) (kept : Kept df P) where
  keeps_main :
      (draft : Draft) (main : Container)
      → main.volume_mounts ≡ draft.main.volume_mounts
      → P draft
      → P (with_main main draft)
  keeps_main = kept.main

  keeps_pod :
      (draft : Draft) (pod : PodSpec)
      → pod.volumes ≡ draft.pod.volumes
      → P draft
      → P (with_pod pod draft)
  keeps_pod = kept.pod

  keeps_volume :
      (draft : Draft) (mount : VolumeMount) (volume : Volume)
      → (volume.name == mount.name) ≡ true
      → P draft
      → P (add_mount mount (add_volume volume draft))
  keeps_volume = kept.volume

  keeps_claim :
      (draft : Draft) (mount : VolumeMount) (template : PersistentVolumeClaim)
      → (template.name == mount.name) ≡ true
      → P draft
      → P (add_mount mount (add_claim template draft))
  keeps_claim = kept.claim

  keeps_if : (b : Bool) (d e : Draft) → P d → P e → P (if b then d else e)
  keeps_if true d e hd he = hd
  keeps_if false d e hd he = he

  keeps_option {ℓ} :
      {A : Type ℓ} (o : Option A) (d : Draft) (f : A → Draft)
      → P d
      → ((a : A) → P (f a))
      → P (elim o [ none ↦ d | some a ↦ f a ])
  keeps_option none d f hd hf = hd
  keeps_option (some a) d f hd hf = hf a

  ruleset keeping = (refl, keeps_main, keeps_pod, keeps_volume, keeps_claim, keeps_if)

  keeps-add_readiness_gate :
      (draft : Draft) (spec : DragonflySpec) → P draft → P (add_readiness_gate spec draft)
  unfolding add_readiness_gate
  keeps-add_readiness_gate draft spec h = search (keeping, h)

  keeps-set_pod_management_policy :
      (draft : Draft) (spec : DragonflySpec) → P draft → P (set_pod_management_policy spec draft)
  unfolding set_pod_management_policy
  keeps-set_pod_management_policy draft spec h =
      keeps_if _ draft _ h (kept.policy draft spec.pod_management_policy h)

  keeps_init :
      (draft : Draft) (containers : List Container)
      → P draft
      → P (elim containers [
        | [] ↦ draft
        | container ∷ others ↦
            with_pod (record (draft.pod) { init_containers = some (container ∷ others) }) draft
      ])
  keeps_init draft [] h = h
  keeps_init draft (container ∷ others) h = search (keeping, h)

  keeps-set_init_containers :
      (draft : Draft) (spec : DragonflySpec) → P draft → P (set_init_containers spec draft)
  unfolding set_init_containers
  keeps-set_init_containers draft spec h = keeps_init draft spec.init_containers h

  keeps-set_pod_security_context :
      (draft : Draft) (spec : DragonflySpec) → P draft → P (set_pod_security_context spec draft)
  unfolding set_pod_security_context
  keeps-set_pod_security_context draft spec h =
      keeps_option spec.pod_security_context _ _ (search (keeping, h))
        (λ context. search (keeping, h))

  keeps-set_container_security_context :
      (draft : Draft) (spec : DragonflySpec)
      → P draft
      → P (set_container_security_context spec draft)
  unfolding set_container_security_context
  keeps-set_container_security_context draft spec h =
      keeps_option spec.container_security_context draft _ h (λ context. search (keeping, h))

  keeps-set_resources :
      (draft : Draft) (spec : DragonflySpec) → P draft → P (set_resources spec draft)
  unfolding set_resources
  keeps-set_resources draft spec h =
      keeps_option spec.resources draft _ h (λ resources. search (keeping, h))

  keeps-add_memcached :
      (draft : Draft) (spec : DragonflySpec) → P draft → P (add_memcached spec draft)
  unfolding add_memcached
  keeps-add_memcached draft spec h = search (keeping, h)

  keeps-add_acl : (draft : Draft) (spec : DragonflySpec) → P draft → P (add_acl spec draft)
  unfolding add_acl
  keeps-add_acl draft spec h =
      keeps_option spec.acl_from_secret draft _ h (λ acl. search (keeping, h))

  keeps-add_tiering_claim :
      (draft : Draft) (tiering : Tiering) → P draft → P (add_tiering_claim df tiering draft)
  unfolding add_tiering_claim tiering_claim
  keeps-add_tiering_claim draft tiering h =
      keeps_option tiering.persistent_volume_claim_spec draft _ h (λ spec. search (keeping, h))

  keeps-add_tiering : (draft : Draft) → P draft → P (add_tiering df draft)
  unfolding add_tiering
  keeps-add_tiering draft h =
      keeps_option df.spec.tiering draft _ h
        (λ tiering. search (keeping, h, keeps-add_tiering_claim))

  keeps-add_snapshot_claim :
      (draft : Draft) (snapshot : Snapshot) → P draft → P (add_snapshot_claim df snapshot draft)
  unfolding add_snapshot_claim
  keeps-add_snapshot_claim draft snapshot h =
      keeps_option snapshot.persistent_volume_claim_spec draft _ h (λ spec. search (keeping, h))

  keeps-add_existing_claim :
      (draft : Draft) (snapshot : Snapshot) → P draft → P (add_existing_claim snapshot draft)
  unfolding add_existing_claim
  keeps-add_existing_claim draft snapshot h = search (keeping, h)

  keeps-snapshot_args :
      (draft : Draft) (snapshot : Snapshot) → P draft → P (snapshot_args snapshot draft)
  unfolding snapshot_args
  keeps-snapshot_args draft snapshot h = search (keeping, h)

  keeps-add_tls : (draft : Draft) (spec : DragonflySpec) → P draft → P (add_tls spec draft)
  unfolding add_tls
  keeps-add_tls draft spec h =
      keeps_option spec.tls_secret_ref draft _ h (λ name. search (keeping, h))

  keeps-set_placement :
      (draft : Draft) (spec : DragonflySpec) → P draft → P (set_placement spec draft)
  unfolding set_placement
  keeps-set_placement draft spec h = search (keeping, h)

  keeps-add_password : (draft : Draft) (a : Authentication) → P draft → P (add_password a draft)
  unfolding add_password
  keeps-add_password draft a h =
      keeps_option a.password_from_secret draft _ h (λ key. search (keeping, h))

  keeps-add_client_ca : (draft : Draft) (a : Authentication) → P draft → P (add_client_ca a draft)
  unfolding add_client_ca
  keeps-add_client_ca draft a h =
      keeps_option a.client_ca_cert_secret draft _ h (λ cert. search (keeping, h))

  keeps-add_authentication :
      (draft : Draft) (spec : DragonflySpec) → P draft → P (add_authentication spec draft)
  unfolding add_authentication
  keeps-add_authentication draft spec h =
      keeps_option spec.authentication draft _ h
        (λ a. search (keeping, h, keeps-add_password, keeps-add_client_ca))

  keeps-set_probes : (draft : Draft) → P draft → P (set_probes df draft)
  unfolding set_probes append_probe_volumes_and_mounts
  keeps-set_probes draft h = search (keeping, h) depth 9

  pub keeps-add_features : (draft : Draft) → P draft → P (add_features df draft)
  unfolding add_features
  keeps-add_features draft h =
      let spec = df.spec in
      let gated = keeps-add_readiness_gate draft spec h in
      let managed = keeps-set_pod_management_policy _ spec gated in
      let initialized = keeps-set_init_containers _ spec managed in
      let secured = keeps-set_pod_security_context _ spec initialized in
      let contained = keeps-set_container_security_context _ spec secured in
      let resourced = keeps-set_resources _ spec contained in
      let given = kept.main _ _ refl resourced in
      let cached = keeps-add_memcached _ spec given in
      keeps-add_tiering _ (keeps-add_acl _ spec cached)

  keeps_ok : (draft stored : Draft) → P draft → ok draft ≡ ok stored → P stored
  keeps_ok draft stored h e = let same : draft ≡ stored = cc in rw (sym same) h

  keeps-add_snapshot_of :
      (draft stored : Draft) (snapshot : Option Snapshot)
      → P draft
      → add_snapshot_of df draft snapshot ≡ ok stored
      → P stored
  unfolding add_snapshot_of
  keeps-add_snapshot_of draft stored none h e = keeps_ok draft stored h e
  keeps-add_snapshot_of draft stored (some snapshot) h e =
      let claimed = keeps-add_snapshot_claim draft snapshot h in
      let existing = keeps-add_existing_claim _ snapshot claimed in
      elim (Bool-cases (has_two_claims snapshot)) [
        | inl two ↦ let refused = rw two at e in cc
        | inr one ↦ elim (Bool-cases (has_cron_only snapshot)) [
          | inl cron ↦ let refused = rw (one, cron) at e in cc
          | inr fine ↦
              keeps_ok _ stored (keeps-snapshot_args _ snapshot existing) (rw (one, fine) at e)
        ]
      ]

  pub keeps-add_snapshot :
      (draft stored : Draft) → P draft → add_snapshot df draft ≡ ok stored → P stored
  unfolding add_snapshot
  keeps-add_snapshot draft stored h e = keeps-add_snapshot_of draft stored df.spec.snapshot h e

  -- The blocks from that of TLS on.
  pub keeps-metadata :
      (draft : Draft) → P draft → P (set_template_metadata df (add_tls df.spec draft))
  keeps-metadata draft h = kept.metadata _ (keeps-add_tls draft df.spec h)

  pub keeps-placement :
      (draft : Draft)
      → P draft
      → P (set_probes df (add_authentication df.spec (set_placement df.spec draft)))
  keeps-placement draft h =
      keeps-set_probes _ (keeps-add_authentication _ df.spec (keeps-set_placement draft df.spec h))
