-- ===== src/Manager/Entry/Started.antt =====
-- How the entry point ends (`main` in cmd/main.go).
use dragonfly_operator.Prelude.{
  ◌≡◌, refl, arith, not, ◌&&◌, ◌||◌, Bool, true, false, List, [], ◌∷◌, ◌⊎◌, inl, inr, Bool-cases,
  if◌then◌else◌,
}
use dragonfly_operator.Manager.{Start}
use dragonfly_operator.Manager.Entry.{
  Flags, Step, Exit, get_config, new_manager, new_clientset, start_structured_logging,
  start_recording_to_sink, new_recorder, set_up, add_healthz_check, add_readyz_check, start_manager,
  shut_down_broadcaster, manager_options, dragonfly_controller, pod_life_cycle_controller, must,
  run_controllers, main,
}

-- All calls of the set-up and the start, the latest first.
abbrev pub all_steps : Flags → Start → List Step
all_steps flags start =
    start_manager
    ∷ add_readyz_check "readyz"
    ∷ add_healthz_check "healthz"
    ∷ set_up (pod_life_cycle_controller flags)
    ∷ set_up (dragonfly_controller flags)
    ∷ new_recorder "dragonfly-operator"
    ∷ start_recording_to_sink
    ∷ start_structured_logging 4
    ∷ new_clientset
    ∷ get_config
    ∷ new_manager (manager_options flags start)
    ∷ get_config
    ∷ []

-- The first calls of `all`.
pub data IsTail {ℓ} {A : Type ℓ} (xs : List A) : List A → Type ℓ where
  whole : IsTail xs xs
  rest : {all : List A} (x : A) → IsTail xs all → IsTail xs (x ∷ all)

shorter {ℓ} : {A : Type ℓ} {x : A} {xs all : List A} → IsTail (x ∷ xs) all → IsTail xs all
shorter {x} whole = rest x whole
shorter (rest y t) = rest y (shorter t)

-- The calls that answer with an error or none.
abbrev pub can_fail : Step → Bool
can_fail (start_structured_logging level) = false
can_fail start_recording_to_sink = false
can_fail (new_recorder component) = false
can_fail step = true

module _ (refuses : List Step → Step → Bool) where
  -- No call that can answer with an error did so.
  unfoldable pub is_accepted : List Step → Bool
  is_accepted [] = true
  is_accepted (step ∷ done) =
      let before = is_accepted done in before && (not (can_fail step) || not (refuses done step))

  -- The exit is 1 right after a call that was refused, and all calls before it were accepted.
  abbrev pub IsStopped : List Step → Exit → Type 0
  IsStopped all exit =
      (step : Step) × (done : List Step) × (exit ≡ (1, step ∷ done))
      × (refuses done step ≡ true)
      × (is_accepted done ≡ true)
      × IsTail (step ∷ done) all

  -- The exit is 0 after all calls, which were all accepted.
  abbrev pub IsFinished : List Step → Exit → Type 0
  IsFinished all exit = (exit ≡ (0, shut_down_broadcaster ∷ all)) × (is_accepted all ≡ true)

  abbrev Ends : List Step → Exit → Type 0
  Ends all exit = IsFinished all exit ⊎ IsStopped all exit

  is_accepted-later :
      (step : Step) (done : List Step)
      → is_accepted done ≡ true
      → refuses done step ≡ false
      → is_accepted (step ∷ done) ≡ true
  unfolding is_accepted
  is_accepted-later step done before e = rw (before, e) (ground arith)

  call-Ends :
      (all : List Step) (step : Step) (done : List Step) {exit : Exit}
      → IsTail (step ∷ done) all
      → is_accepted done ≡ true
      → (is_accepted (step ∷ done) ≡ true → Ends all exit)
      → Ends all (if refuses done step then (1, step ∷ done) else exit)
  call-Ends all step done t before e = elim (Bool-cases (refuses done step)) [
    | inl refused ↦ rw refused (inr (step, done, refl, refused, before, t))
    | inr accepted ↦ rw accepted (e (is_accepted-later step done before accepted))
  ]

  is_accepted-infallible :
      (step : Step) (done : List Step)
      → can_fail step ≡ false
      → is_accepted done ≡ true
      → is_accepted (step ∷ done) ≡ true
  unfolding is_accepted
  is_accepted-infallible step done e before = rw (before, e) refl

  run_controllers-Ends :
      (flags : Flags) (start : Start)
      → is_accepted
          (new_clientset ∷ get_config ∷ new_manager (manager_options flags start) ∷ get_config ∷ [])
        ≡ true
      → Ends (all_steps flags start) (
          run_controllers refuses flags (
            new_clientset
            ∷ get_config
            ∷ new_manager (manager_options flags start)
            ∷ get_config
            ∷ []))
  unfolding run_controllers must
  run_controllers-Ends flags start before =
      let all = all_steps flags start in
      let top : IsTail all all = whole in
      let readyz = shorter top in
      let healthz = shorter readyz in
      let pods = shorter healthz in
      let dragonflies = shorter pods in
      let recorded = is_accepted-infallible (new_recorder "dragonfly-operator") _ refl (
        is_accepted-infallible start_recording_to_sink _ refl
          (is_accepted-infallible (start_structured_logging 4) _ refl before)) in
      call-Ends all _ _ dragonflies recorded (λ a. call-Ends all _ _ pods a (λ b.
        call-Ends all _ _ healthz b
          (λ c. call-Ends all _ _ readyz c (λ d. call-Ends all _ _ whole d (λ e. inl (refl, e))))))

  -- Unless it is asked for its version, the operator either makes all calls in the order of `all_steps`,
  -- none of which answers with an error, the start of the manager among them, and exits with 0 after the
  -- shutdown of the broadcaster; or the first call that answers with an error is its last one, with only
  -- calls of `all_steps` before it, in that order, and it exits with 1.
  pub main-Ends :
      (flags : Flags) (start : Start)
      → flags.version_flag ≡ false
      → IsFinished (all_steps flags start) (main refuses flags start)
        ⊎ IsStopped (all_steps flags start) (main refuses flags start)
  unfolding main must is_accepted
  main-Ends flags start e =
      let all = all_steps flags start in
      let top : IsTail all all = whole in
      let dragonflies = shorter (shorter (shorter (shorter top))) in
      let clientset = shorter (shorter (shorter (shorter dragonflies))) in
      let config = shorter clientset in
      let manager = shorter config in
      rw e (
        call-Ends all _ _ (shorter manager) refl (λ a. call-Ends all _ _ manager a (λ b.
          call-Ends all _ _ config b
            (λ c. call-Ends all _ _ clientset c (λ d. run_controllers-Ends flags start d)))))
