-- ===== src/Instance/Resources/Footprint.antt =====
-- Which calls `reconcileResources` makes (internal/controller/dragonfly_instance.go).
use mathlib.Core.List.{Memᴰ}
use dragonfly_operator.Prelude.{
  sym, ap, ◌∙◌, ◌||◌, ◌≡◌, refl, String, Bool, true, false, ◌&&◌, ◌==◌, Option, none, some, List,
  [], ◌∷◌, arith, eq_refl,
}
use dragonfly_operator.Kube.{Dragonfly}
use dragonfly_operator.Kube.Objects.{
  Object, ObjectMeta, StatefulSetSpec, ServiceObjectSpec, stateful_set, service, disruption_budget,
  config,
}
use dragonfly_operator.Kube.Equality.{dict_equal, nil_equal, claims_equal}
use dragonfly_operator.Kube.Equality.Laws.{nil_dict_equal_refl, nil_claims_equal_refl}
use dragonfly_operator.Effects.Errors.{Result, ok, err, is_not_found}
use dragonfly_operator.Effects.Calls.{
  M, ◌>>=◌, ◌>>◌, wrapping, gets, get_object, Call, Env, Instance, patch_object, create_object,
  delete_budget, patch_dragonfly_status, record_event,
}
use dragonfly_operator.Effects.Actions.{do_patch_object, do_create_object}
use dragonfly_operator.Effects.Within.{
  Within, Within-perform, Within-bind, Within-bind_of, Within-pure, Within-fail, Within-gets,
  Within-attempt, Within-rewrapping, Within-if, footprint, only_asks, Grows, Within-weaken,
}
use dragonfly_operator.Instance.Objects.{
  preserve_immutable, preserve_service, preserve_stateful_set, patched, resource_specs_equal,
}
use dragonfly_operator.Effects.Outcome.{pure_ok, fail_ok, bind_run}
use dragonfly_operator.Resources.Generate.{generate_dragonfly_resources}
use dragonfly_operator.Instance.Resources.Store.{key_of, same_key}
use dragonfly_operator.Instance.Status.{patch_status}
use dragonfly_operator.Instance.Resources.Quiet.{
  is_quiet, warn_immutable-Within, referenced-Within, delete_spare_budget-Within,
}
use dragonfly_operator.Instance.Resources.{
  Setup, referenced, create_resource, update_resource, reconcile_found, reconcile_resource,
  reconcile_each, delete_spare_budget, record_created, generated, reconcile_resources,
}

abbrev same_text : Option String → Option String → Bool
same_text none none = true
same_text (some a) (some b) = a == b
same_text none (some b) = false
same_text (some a) none = false

-- The fields that cannot be changed are the same.
unfoldable pub same_immutable : Object → Object → Bool
unfolding dict_equal claims_equal
same_immutable (stateful_set m a) (stateful_set n b) =
    nil_equal claims_equal a.volume_claim_templates b.volume_claim_templates
    && nil_equal dict_equal a.selector b.selector
    && a.service_name == b.service_name
    && a.pod_management_policy == b.pod_management_policy
same_immutable (service m a) (service n b) =
    a.cluster_ip == b.cluster_ip && same_text a.ip_family_policy b.ip_family_policy
same_immutable before after = true

-- The object has the name of one of these, and the comparison finds no difference between the two.
unfoldable pub is_generated : List Object → Object → Bool
is_generated [] object = false
is_generated (desired ∷ objects) object =
    let later = is_generated objects object in
    (same_key (key_of desired) (key_of object) && resource_specs_equal object desired) || later

-- A call that asks, creates one of these objects, changes an object but for its immutable fields,
-- deletes a disruption budget, patches the status of the instance, or records an event.
unfoldable pub only_objects : List Object → Call → Bool
unfolding same_immutable is_generated
only_objects objects (create_object object) = is_generated objects object
only_objects objects (patch_object before after) = same_immutable before after
only_objects objects (delete_budget namespace name) = true
only_objects objects (patch_dragonfly_status before after) = true
only_objects objects (record_event reason message) = true
only_objects objects call = only_asks call

-- `SetControllerReference` changes only the references to owners.
pub record IsReferring (setup : Setup) : Type 0 where
  pub kept :
      (df : Dragonfly) (desired owned : Object)
      → setup.set_controller_reference df desired ≡ ok owned
      → (same_key (key_of desired) (key_of owned) ≡ true)
        × (resource_specs_equal owned desired ≡ true)

-- The generated objects, where they can be generated.
abbrev pub objects_of : Result (List Object) → List Object
objects_of (ok objects) = objects
objects_of (err e) = []

same_text_refl : (a : Option String) → same_text a a ≡ true
same_text_refl none = refl
same_text_refl (some a) = eq_refl a

same_stateful_set :
    (m n : ObjectMeta) (b c : StatefulSetSpec)
    → c.volume_claim_templates ≡ b.volume_claim_templates
    → c.selector ≡ b.selector
    → c.service_name ≡ b.service_name
    → c.pod_management_policy ≡ b.pod_management_policy
    → same_immutable (stateful_set m b) (stateful_set n c) ≡ true
unfolding same_immutable
same_stateful_set m n b c t l s p =
    rw
      (
        t,
        l,
        s,
        p,
        nil_claims_equal_refl b.volume_claim_templates,
        nil_dict_equal_refl b.selector,
        eq_refl b.service_name,
        eq_refl b.pod_management_policy,
      )
      refl

same_service :
    (m n : ObjectMeta) (b c : ServiceObjectSpec)
    → c.cluster_ip ≡ b.cluster_ip
    → c.ip_family_policy ≡ b.ip_family_policy
    → same_immutable (service m b) (service n c) ≡ true
unfolding same_immutable
same_service m n b c i p = rw (i, p, eq_refl b.cluster_ip, same_text_refl b.ip_family_policy) refl

-- A patch of the operator keeps the immutable fields.
same_immutable-patched :
    (desired existing : Object)
    → same_immutable existing (patched (preserve_immutable desired existing) existing) ≡ true
unfolding patched preserve_immutable same_immutable
same_immutable-patched (stateful_set m a) (stateful_set n b) =
    same_stateful_set n n b (preserve_stateful_set a b) refl refl refl refl
same_immutable-patched (service m a) (stateful_set n b) =
    same_stateful_set n n b b refl refl refl refl
same_immutable-patched (disruption_budget m a) (stateful_set n b) =
    same_stateful_set n n b b refl refl refl refl
same_immutable-patched (config m a c) (stateful_set n b) =
    same_stateful_set n n b b refl refl refl refl
same_immutable-patched (service m a) (service n b) =
    same_service n n b (preserve_service a b) refl refl
same_immutable-patched (stateful_set m a) (service n b) = same_service n n b b refl refl
same_immutable-patched (disruption_budget m a) (service n b) = same_service n n b b refl refl
same_immutable-patched (config m a c) (service n b) = same_service n n b b refl refl
same_immutable-patched (stateful_set m a) (disruption_budget n b) = refl
same_immutable-patched (service m a) (disruption_budget n b) = refl
same_immutable-patched (disruption_budget m a) (disruption_budget n b) = refl
same_immutable-patched (config m a c) (disruption_budget n b) = refl
same_immutable-patched (stateful_set m a) (config n b d) = refl
same_immutable-patched (service m a) (config n b d) = refl
same_immutable-patched (disruption_budget m a) (config n b d) = refl
same_immutable-patched (config m a c) (config n b d) = refl

is_generated-Memᴰ :
    (desired owned : Object) (objects : List Object)
    → same_key (key_of desired) (key_of owned) ≡ true
    → resource_specs_equal owned desired ≡ true
    → Memᴰ desired objects
    → is_generated objects owned ≡ true
unfolding is_generated
is_generated-Memᴰ desired owned [] k same m = elim m [ ]
is_generated-Memᴰ desired owned (x ∷ objects) k same (Memᴰ.head e) =
    rw
      (
        ap (λ (y : Object). same_key (key_of y) (key_of owned)) (sym e) ∙ k,
        ap (λ (y : Object). resource_specs_equal owned y) (sym e) ∙ same,
      )
      refl
is_generated-Memᴰ desired owned (x ∷ objects) k same (Memᴰ.tail m) =
    rw (is_generated-Memᴰ desired owned objects k same m) (ground arith)

-- What a test has to permit for the reconciliation of these objects.
pub record PermitsObjects (p : Call → Bool) (setup : Setup) (objects : List Object) : Type 0 where
  pub quiet : (call : Call) → is_quiet call ≡ true → p call ≡ true
  pub creates :
      (df : Dragonfly) (desired owned : Object)
      → Memᴰ desired objects
      → setup.set_controller_reference df desired ≡ ok owned
      → p (create_object owned) ≡ true
  pub patches :
      (desired existing : Object)
      → p (patch_object existing (patched (preserve_immutable desired existing) existing)) ≡ true
  pub patches_status : (before after : Dragonfly) → p (patch_dragonfly_status before after) ≡ true

module _ (env : Env) (setup : Setup) {p : Call → Bool} {objects : List Object}
    (permits : PermitsObjects p setup objects) where
  quiet-Within {ℓ} : {A : Type ℓ} {m : M A} → Within is_quiet m → Within p m
  quiet-Within w = Within-weaken permits.quiet w

  -- The object that is created is one of the generated ones.
  created-Within :
      (found : Result Object)
      → ((owned : Object) → found ≡ ok owned → p (create_object owned) ≡ true)
      → Within p (
          referenced found >>= λ owned.
          wrapping "failed to create resource" (do_create_object env owned))
  created-Within (ok owned) h = Within-bind_of (Within-pure owned) (λ a s e.
      rw (← (pure_ok owned a s e))
        (Within-rewrapping _ (Within-perform (create_object owned) _ (h owned refl) refl)))
  created-Within (err x) h = Within-bind_of (Within-fail _) (λ a s e. absurd (fail_ok _ a s e))

  create_resource-Within :
      (df : Dragonfly) (desired : Object)
      → Memᴰ desired objects
      → Within p (create_resource env setup df desired)
  unfolding create_resource
  create_resource-Within df desired m =
      created-Within (setup.set_controller_reference df desired)
        (λ owned e. permits.creates df desired owned m e)

  patch-Within :
      (desired existing : Object)
      → Within p
          (do_patch_object env existing (patched (preserve_immutable desired existing) existing))
  patch-Within desired existing = Within-perform _ _ (permits.patches desired existing) refl

  update_resource-Within :
      (df : Dragonfly) (desired existing : Object)
      → Within p (update_resource env setup df desired existing)
  unfolding update_resource
  update_resource-Within df desired existing =
      search (footprint, quiet-Within, referenced-Within, warn_immutable-Within, patch-Within)

  reconcile_found-Within :
      (df : Dragonfly) (desired : Object) (found : Result Object)
      → Memᴰ desired objects
      → Within p (reconcile_found env setup df desired found)
  reconcile_found-Within df desired (ok existing) m = update_resource-Within df desired existing
  reconcile_found-Within df desired (err e) m =
      Within-if (is_not_found e) (λ h. create_resource-Within df desired m) (λ h. Within-fail _)

  asking : (kind namespace name : String) → p (get_object kind namespace name) ≡ true
  unfolding is_quiet
  asking kind namespace name = permits.quiet (get_object kind namespace name) refl

  reconcile_resource-Within :
      (desired : Object) → Memᴰ desired objects → Within p (reconcile_resource env setup desired)
  unfolding reconcile_resource
  reconcile_resource-Within desired m = Within-bind (Within-gets _) (λ df.
      Within-bind (Within-attempt (Within-perform _ _ (asking _ _ _) refl))
        (λ found. reconcile_found-Within df desired found m))

  reconcile_each-Within :
      (todo : List Object)
      → ((desired : Object) → Memᴰ desired todo → Memᴰ desired objects)
      → Within p (reconcile_each env setup todo)
  unfolding reconcile_each
  reconcile_each-Within [] h = search footprint
  reconcile_each-Within (desired ∷ todo) h =
      Within-bind (reconcile_resource-Within desired (h desired (Memᴰ.head refl)))
        (λ _. reconcile_each-Within todo (λ other m. h other (Memᴰ.tail m)))

  recording : (reason message : String) → p (record_event reason message) ≡ true
  unfolding is_quiet
  recording reason message = permits.quiet (record_event reason message) refl

  record_created-Within : Within p (record_created env setup)
  unfolding record_created patch_status
  record_created-Within = search (footprint, recording, permits.patches_status) depth 9

  rest-Within : Within p (
      reconcile_each env setup objects
      >> (delete_spare_budget env setup >> record_created env setup))
  rest-Within = Within-bind (reconcile_each-Within objects (λ desired m. m)) (λ _.
      Within-bind (quiet-Within (delete_spare_budget-Within env setup))
        (λ _. record_created-Within))

module _ (env : Env) (setup : Setup) where
  -- From the generated objects on.
  abbrev from_generated : Result (List Object) → M (Unit {0})
  from_generated found = generated env setup found >>= λ objects.
      reconcile_each env setup objects
      >> (delete_spare_budget env setup >> record_created env setup)

  from_generated-Within :
      {p : Call → Bool} (found : Result (List Object))
      → PermitsObjects p setup (objects_of found)
      → Within p (from_generated found)
  from_generated-Within (ok objects) permits =
      Within-bind_of (Within-pure objects)
        (λ a s e. rw (← (pure_ok objects a s e)) (rest-Within env setup permits))
  from_generated-Within (err x) permits =
      Within-bind_of (Within-fail _) (λ a s e. absurd (fail_ok _ a s e))

  -- The objects may come from any custom resource.
  pub reconcile_resources-Within :
      {p : Call → Bool}
      → ((objects : List Object) → PermitsObjects p setup objects)
      → Within p (reconcile_resources env setup)
  unfolding reconcile_resources
  reconcile_resources-Within permits = Within-bind (Within-gets _) (λ df.
      from_generated-Within (generate_dragonfly_resources setup.scripts df setup.default_image)
        (permits _))

  reconcile_resources-run :
      (s : Instance)
      → reconcile_resources env setup s
        ≡ from_generated (generate_dragonfly_resources setup.scripts s.df setup.default_image) s
  unfolding reconcile_resources gets
  reconcile_resources-run s = bind_run (gets (λ (t : Instance). t.df)) _ s s.df refl

  only_objects-PermitsObjects :
      IsReferring setup
      → (objects : List Object) → PermitsObjects (only_objects objects) setup objects
  unfolding only_objects is_quiet
  only_objects-PermitsObjects refers objects = record {
    quiet = λ call e. ground arith;
    creates = λ df desired owned m e.
        let (key, same) = refers.kept df desired owned e in
        is_generated-Memᴰ desired owned objects key same m;
    patches = λ desired existing. same_immutable-patched desired existing;
    patches_status = λ before after. refl;
  }

  -- Where `SetControllerReference` changes only the references to owners, and whatever the API server
  -- answers, `reconcileResources` only asks, creates objects with the names of the generated ones that
  -- the comparison does not tell from these (none, where they cannot be generated), changes existing ones
  -- with their immutable fields left as they are (the claim templates, the selector, the service name and
  -- the pod management policy of a stateful set, the address and the family policy of a service), deletes
  -- disruption budgets, patches the status of the instance, and records events.
  pub reconcile_resources-only_objects :
      IsReferring setup
      → (s : Instance)
      → Grows
          (only_objects
            (objects_of (generate_dragonfly_resources setup.scripts s.df setup.default_image)))
          s.calls
          (reconcile_resources env setup s).1.calls
  reconcile_resources-only_objects refers s =
      let found = generate_dragonfly_resources setup.scripts s.df setup.default_image in
      rw (reconcile_resources-run s)
        ((from_generated-Within found (only_objects-PermitsObjects refers (objects_of found))).at
          s).grows
