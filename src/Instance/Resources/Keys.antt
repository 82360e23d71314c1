-- ===== src/Instance/Resources/Keys.antt =====
-- The names of the generated objects in the API server (internal/resources/resources.go).
use text.Mathlib.TextLemmas.{nil-append, cons-append}
use dragonfly_operator.Prelude.{
  ◌≡◌, refl, sym, ap, ◌∙◌, String, ◌<>◌, true, false, ◌==◌, Option, none, some, List, [], ◌∷◌, ◌++◌,
  Bool-cases, inl, inr, arith, All, All-append, eq_iff, eq_refl,
}
use dragonfly_operator.Prelude.Int.{ℤ, pos, negsuc, ltb_ℤ}
use dragonfly_operator.Kube.{Dragonfly}
use dragonfly_operator.Kube.Objects.{Object, stateful_set}
use dragonfly_operator.Effects.Errors.{ok}
use dragonfly_operator.Resources.Names.{
  liveness_probe_config_map_suffix, readiness_probe_config_map_suffix,
  startup_probe_config_map_suffix,
}
use dragonfly_operator.Resources.Draft.{Draft}
use dragonfly_operator.Resources.Probes.{
  Scripts, generated_meta, is_custom, has_custom_probes, probe_config_map_name, unless_custom,
  generate_probe_config_map, liveness_maps, readiness_maps, startup_maps, probe_config_maps,
}
use dragonfly_operator.Resources.Service.{generate_service, generate_budget, budgets}
use dragonfly_operator.Resources.Generate.{after_snapshot, generate_dragonfly_resources}
use dragonfly_operator.Resources.Outcome.{
  All-probe_config_maps, generate_dragonfly_resources-FromDraft,
}
use dragonfly_operator.Instance.Resources.Store.{Key, budget_key, key_of, same_key}

append_cancel : (a s t : String) → (a <> s) ≡ (a <> t) → s ≡ t
append_cancel String.[] s t e = sym (nil-append s) ∙ e ∙ nil-append t
append_cancel (String.◌∷◌ c a) s t e =
    let rest = sym (cons-append c a s) ∙ e ∙ cons-append c a t in append_cancel a s t (cc)

append_apart : (a s t : String) → (s == t) ≡ false → ((a <> s) == (a <> t)) ≡ false
append_apart a s t d = elim (Bool-cases ((a <> s) == (a <> t))) [
  | inl same ↦
      let e = append_cancel a s t ((eq_iff (a <> s) (a <> t)).0 same) in
      let again = (eq_iff s t).1 e in cc
  | inr other ↦ other
]

-- The object has another name than each of the others.
abbrev pub IsApart : Object → List Object → Type 0
IsApart object = All (λ (other : Object). same_key (key_of object) (key_of other) ≡ false)

-- No two objects have the same name.
abbrev pub AreApart : List Object → Type 0
AreApart [] = Unit
AreApart (object ∷ objects) = IsApart object objects × AreApart objects

AreApart-append :
    (xs ys : List Object)
    → AreApart xs
    → AreApart ys
    → All (λ (x : Object). IsApart x ys) xs
    → AreApart (xs ++ ys)
AreApart-append [] ys hx hy h = hy
AreApart-append (x ∷ xs) ys hx hy h = (
  All-append (λ (other : Object). same_key (key_of x) (key_of other) ≡ false) xs ys hx.0 h.0,
  AreApart-append xs ys hx.1 hy h.1,
)

abbrev AreNamed : Key → List Object → Type 0
AreNamed key = All (λ (object : Object). key_of object ≡ key)

IsApart-both :
    (xs ys zs : List Object)
    → All (λ (x : Object). IsApart x ys) xs
    → All (λ (x : Object). IsApart x zs) xs
    → All (λ (x : Object). IsApart x (ys ++ zs)) xs
IsApart-both [] ys zs hy hz = tt
IsApart-both (x ∷ xs) ys zs hy hz = (
  All-append (λ (other : Object). same_key (key_of x) (key_of other) ≡ false) ys zs hy.0 hz.0,
  IsApart-both xs ys zs hy.1 hz.1,
)

module _ (k l : Key) (apart : same_key k l ≡ false) where
  IsApart-AreNamed : (x : Object) (ys : List Object) → key_of x ≡ k → AreNamed l ys → IsApart x ys
  IsApart-AreNamed x [] hx h = tt
  IsApart-AreNamed x (y ∷ ys) hx h = (
    ap (λ (j : Key). same_key j (key_of y)) hx ∙ ap (same_key k) h.0 ∙ apart,
    IsApart-AreNamed x ys hx h.1,
  )

  All-AreNamed :
      (xs ys : List Object) → AreNamed k xs → AreNamed l ys → All (λ (x : Object). IsApart x ys) xs
  All-AreNamed [] ys hx hy = tt
  All-AreNamed (x ∷ xs) ys hx hy = (IsApart-AreNamed x ys hx.0 hy, All-AreNamed xs ys hx.1 hy)

abbrev config_key : Dragonfly → String → Key
config_key df suffix = record {
  kind = "ConfigMap";
  namespace = df.namespace;
  name = df.name <> "-" <> suffix;
}

-- The config map of a probe, unless the spec has one of its own.
abbrev probe_maps : Dragonfly → Option String → String → String → String → List Object
probe_maps df custom suffix key script =
    unless_custom custom
      (generate_probe_config_map df (probe_config_map_name df.name suffix custom) key script)

probe_config_map_name_default :
    (name suffix : String) (custom : Option String)
    → is_custom custom ≡ false
    → probe_config_map_name name suffix custom ≡ (name <> "-" <> suffix)
unfolding probe_config_map_name
probe_config_map_name_default name suffix none e = refl
probe_config_map_name_default name suffix (some custom) e = ground arith

module _ (df : Dragonfly) (custom : Option String) (suffix key script : String) where
  AreNamed-probe_maps : AreNamed (config_key df suffix) (probe_maps df custom suffix key script)
  unfolding generate_probe_config_map generated_meta
  AreNamed-probe_maps = elim (Bool-cases (is_custom custom)) [
    | inl e ↦ rw e tt
    | inr e ↦ rw (e, probe_config_map_name_default df.name suffix custom e) (refl, tt)
  ]

  AreApart-probe_maps : AreApart (probe_maps df custom suffix key script)
  AreApart-probe_maps = elim (Bool-cases (is_custom custom)) [
    | inl e ↦ rw e tt
    | inr e ↦ rw e (tt, tt)
  ]

module _ (df : Dragonfly) where
  names_apart :
      (s t : String)
      → (("-" <> s) == ("-" <> t)) ≡ false
      → same_key (config_key df s) (config_key df t) ≡ false
  names_apart s t e = rw (eq_refl df.namespace) (append_apart df.name ("-" <> s) ("-" <> t) e)

  module _ (scripts : Scripts) where
    live-AreNamed :
        AreNamed (config_key df liveness_probe_config_map_suffix) (liveness_maps scripts df)
    live-AreNamed = AreNamed-probe_maps df _ _ _ _

    ready-AreNamed :
        AreNamed (config_key df readiness_probe_config_map_suffix) (readiness_maps scripts df)
    ready-AreNamed = AreNamed-probe_maps df _ _ _ _

    start-AreNamed :
        AreNamed (config_key df startup_probe_config_map_suffix) (startup_maps scripts df)
    start-AreNamed = AreNamed-probe_maps df _ _ _ _

    probe_config_maps-AreApart : AreApart (probe_config_maps scripts df)
    unfolding probe_config_maps
    probe_config_maps-AreApart =
        let lr =
          All-AreNamed _ _
            (names_apart liveness_probe_config_map_suffix readiness_probe_config_map_suffix refl) _
            _ live-AreNamed ready-AreNamed in
        let ls =
          All-AreNamed _ _
            (names_apart liveness_probe_config_map_suffix startup_probe_config_map_suffix refl) _ _
            live-AreNamed start-AreNamed in
        let rs =
          All-AreNamed _ _
            (names_apart readiness_probe_config_map_suffix startup_probe_config_map_suffix refl) _ _
            ready-AreNamed start-AreNamed in
        let later =
          AreApart-append _ _ (AreApart-probe_maps df _ _ _ _) (AreApart-probe_maps df _ _ _ _)
            rs in
        elim (Bool-cases (has_custom_probes df)) [
          | inl e ↦ rw e (
              AreApart-append _ _ (AreApart-probe_maps df _ _ _ _) later (IsApart-both _ _ _ lr ls))
          | inr e ↦ rw e tt
        ]

    -- The objects after the config maps.
    abbrev others : Draft → List Object
    others draft =
        stateful_set (generated_meta df df.name) (after_snapshot df draft)
        ∷ generate_service df
        ∷ budgets df

    config-IsApart :
        (name key script : String) (draft : Draft)
        → IsApart (generate_probe_config_map df name key script) (others draft)
    unfolding generate_probe_config_map generate_service generate_budget budgets
    config-IsApart name key script draft = elim (Bool-cases (ltb_ℤ (pos 1) df.spec.replicas)) [
      | inl e ↦ rw e (refl, (refl, (refl, tt)))
      | inr e ↦ rw e (refl, (refl, tt))
    ]

    others-AreApart : (draft : Draft) → AreApart (others draft)
    unfolding generate_service generate_budget budgets
    others-AreApart draft = elim (Bool-cases (ltb_ℤ (pos 1) df.spec.replicas)) [
      | inl e ↦ rw e ((refl, (refl, tt)), ((refl, tt), (tt, tt)))
      | inr e ↦ rw e ((refl, tt), (tt, tt))
    ]

-- The generated objects have different names.
pub generate_dragonfly_resources-AreApart :
    (scripts : Scripts) (df : Dragonfly) (image : String) (objects : List Object)
    → generate_dragonfly_resources scripts df image ≡ ok objects
    → AreApart objects
generate_dragonfly_resources-AreApart scripts df image objects e =
    let found = generate_dragonfly_resources-FromDraft scripts df image objects e in
    let maps = probe_config_maps scripts df in
    let apart =
      All-probe_config_maps (λ (x : Object). IsApart x (others df scripts found.draft)) df
        (λ name key script. config-IsApart df scripts name key script found.draft) scripts in
    rw (found.all) (
      AreApart-append maps (others df scripts found.draft) (probe_config_maps-AreApart df scripts)
        (others-AreApart df scripts found.draft) apart)

-- A disruption budget that is not needed is not generated.
pub generate_dragonfly_resources-no_spare :
    (scripts : Scripts) (df : Dragonfly) (image : String) (objects : List Object)
    → generate_dragonfly_resources scripts df image ≡ ok objects
    → ltb_ℤ df.spec.replicas (pos 2) ≡ true
    → All
        (λ (object : Object). same_key (budget_key df.namespace df.name) (key_of object) ≡ false)
        objects
unfolding generate_probe_config_map generate_service budgets
generate_dragonfly_resources-no_spare scripts df image objects e spare =
    let found = generate_dragonfly_resources-FromDraft scripts df image objects e in
    let other =
      λ (object : Object). same_key (budget_key df.namespace df.name) (key_of object) ≡ false in
    rw (found.all) (
      All-append other (probe_config_maps scripts df) (others df scripts found.draft)
        (All-probe_config_maps other df (λ name key script. refl) scripts)
        (refl, (refl, rw (few df.spec.replicas spare) tt)))
  where
    few : (n : ℤ) → ltb_ℤ n (pos 2) ≡ true → ltb_ℤ (pos 1) n ≡ false
    few (pos n) h = ground arith
    few (negsuc n) h = refl
