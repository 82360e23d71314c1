-- ===== src/Resources/Merge.antt =====
-- `mergeNamedSlices` by the names of the items.
use dragonfly_operator.Prelude.{
  ◌≡◌, refl, ◌∙◌, String, false, Option, none, some, List, [], ◌∷◌, ◌++◌, arith, ◌==◌, eq_iff,
  if◌then◌else◌,
}
use dragonfly_operator.Prelude.Dict.{or_else}
use dragonfly_operator.Resources.{has_name, not_overridden, merge_named_slices}

module _ {ℓ} {T : Type ℓ} (get_name : T → String) where
  -- The first item of a name.
  pub find_named : String → List T → Option T
  find_named name [] = none
  find_named name (item ∷ items) =
      if get_name item == name then some item else find_named name items

  find_named-append :
      (name : String) (items others : List T)
      → find_named name (items ++ others) ≡ or_else (find_named name items) (find_named name others)
  unfolding find_named
  find_named-append name [] others = refl
  find_named-append name (item ∷ items) others = ground (arith, find_named-append name items others)

  has_name-missing :
      (name : String) (items : List T)
      → find_named name items ≡ none
      → has_name get_name name items ≡ false
  unfolding find_named has_name
  has_name-missing name [] h = refl
  has_name-missing name (item ∷ items) h = ground (arith, has_name-missing name items)

  find_named-not_overridden :
      (name : String) (base override : List T)
      → has_name get_name name override ≡ false
      → find_named name (not_overridden get_name base override) ≡ find_named name base
  unfolding find_named not_overridden
  find_named-not_overridden name [] override h = refl
  find_named-not_overridden name (item ∷ base) override h =
      ground (arith, find_named-not_overridden name base override h, eq_iff (get_name item) name)

  merged :
      (name : String) (base override : List T) (found : Option T)
      → find_named name override ≡ found
      → or_else found (find_named name (not_overridden get_name base override))
        ≡ or_else found (find_named name base)
  merged name base override none e =
      find_named-not_overridden name base override (has_name-missing name override e)
  merged name base override (some item) e = refl

  -- In the merge, an item is found under its name exactly if the override or the base has one of that
  -- name, and it is the override's if that has one.
  pub find_named-merge_named_slices :
      (name : String) (base override : List T)
      → find_named name (merge_named_slices get_name base override)
        ≡ or_else (find_named name override) (find_named name base)
  unfolding merge_named_slices
  find_named-merge_named_slices name base override =
      find_named-append name override (not_overridden get_name base override)
      ∙ merged name base override (find_named name override) refl
