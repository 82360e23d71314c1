-- ===== src/Instance/Resources/Store.antt =====
-- An API server that holds the objects, as the requests of `reconcileResources`
-- (internal/controller/dragonfly_instance.go) leave them.
use dragonfly_operator.Prelude.{
  ◌≡◌, refl, String, Bool, true, ◌&&◌, ◌==◌, Option, none, some, [], ◌∷◌, if◌then◌else◌, Bool-cases,
  inl, inr, eq_iff, eq_refl, arith,
}
use dragonfly_operator.Kube.{Dragonfly}
use dragonfly_operator.Kube.Objects.{Object, meta_of}
use dragonfly_operator.Effects.Errors.{Result, ok, err, answered}
use dragonfly_operator.Effects.Calls.{
  Call, History, Env, create_object, patch_object, delete_budget,
}
use dragonfly_operator.Instance.Objects.{kind_of}

-- The name of an object in the API server.
pub record Key : Type 0 where
  pub kind : String
  pub namespace : String
  pub name : String

abbrev pub same_key : Key → Key → Bool
same_key a b = a.kind == b.kind && a.namespace == b.namespace && a.name == b.name

abbrev pub key_of : Object → Key
key_of object = record {
  kind = kind_of object;
  namespace = (meta_of object).namespace;
  name = (meta_of object).name;
}

abbrev pub budget_key : String → String → Key
budget_key namespace name = record {
  kind = "PodDisruptionBudget";
  namespace = namespace;
  name = name;
}

-- What is held under each name.
abbrev pub Store : Type 0
Store = Key → Option Object

unfoldable pub put : Object → Store → Store
put object store key = if same_key (key_of object) key then some object else store key

unfoldable pub remove : Key → Store → Store
remove gone store key = if same_key gone key then none else store key

-- The server writes the fields of the metadata that are its own, such as the version, and keeps the rest.
abbrev pub stamped : (Object → Object) → Call → Store → Store
stamped admit (create_object object) store = put (admit object) store
stamped admit (patch_object before after) store = put (admit after) store
stamped admit (delete_budget namespace name) store = remove (budget_key namespace name) store
stamped admit call store = store

unfoldable pub store_after : (Object → Object) → Store → History → Store
unfolding put remove
store_after admit initial [] = initial
store_after admit initial (call ∷ calls) = stamped admit call (store_after admit initial calls)

abbrev pub found : Option Object → Result Object
found none = err (answered true "not found")
found (some object) = ok object

abbrev pub deleted : Option Object → Result (Unit {0})
deleted none = err (answered true "not found")
deleted (some object) = ok tt

-- Every object is held under its own name.
abbrev pub IsKeyed : Store → Type 0
IsKeyed store = (key : Key) (object : Object) → store key ≡ some object → key_of object ≡ key

-- A server that answers by what it holds, and refuses no request that names an object correctly: the
-- answers are those for the state in which the history has left it.
pub record Serves (env : Env) (admit : Object → Object) (initial : Store) : Type 0 where
  pub keyed : IsKeyed initial
  pub admit_key : (object : Object) → key_of (admit object) ≡ key_of object
  pub get :
      (h : History) (key : Key)
      → env.get_object h key.kind key.namespace key.name ≡ found (store_after admit initial h key)
  pub create :
      (h : History) (object : Object)
      → store_after admit initial h (key_of object) ≡ none
      → env.create_object h object ≡ ok tt
  pub patch :
      (h : History) (before after : Object)
      → store_after admit initial h (key_of after) ≡ some before
      → env.patch_object h before after ≡ ok tt
  pub delete :
      (h : History) (namespace name : String)
      → env.delete_budget h namespace name
        ≡ deleted (store_after admit initial h (budget_key namespace name))
  pub status :
      (h : History) (before after : Dragonfly)
      → env.patch_dragonfly_status h before after ≡ ok after

pub same_key→eq : (a b : Key) → same_key a b ≡ true → a ≡ b
same_key→eq a b h =
    ground (arith, eq_iff a.kind b.kind, eq_iff a.namespace b.namespace, eq_iff a.name b.name)

pub same_key_refl : (a : Key) → same_key a a ≡ true
same_key_refl a = rw (eq_refl a.kind, eq_refl a.namespace, eq_refl a.name) refl

pub put-IsKeyed : (object : Object) (store : Store) → IsKeyed store → IsKeyed (put object store)
unfolding put
put-IsKeyed object store keyed key o e = elim (Bool-cases (same_key (key_of object) key)) [
  | inl same ↦
      let held : some object ≡ some o = rw same at e in
      let here : object ≡ o = cc in rw (← here) (same_key→eq (key_of object) key same)
  | inr other ↦ keyed key o (rw other at e)
]

remove-IsKeyed : (gone : Key) (store : Store) → IsKeyed store → IsKeyed (remove gone store)
unfolding remove
remove-IsKeyed gone store keyed key o e = elim (Bool-cases (same_key gone key)) [
  | inl same ↦ let none_left : none ≡ some o = rw same at e in cc
  | inr other ↦ keyed key o (rw other at e)
]

module _ {env : Env} {admit : Object → Object} {initial : Store}
    (s : Serves env admit initial) where
  stamped-IsKeyed :
      (call : Call) (store : Store) → IsKeyed store → IsKeyed (stamped admit call store)
  stamped-IsKeyed (create_object object) store h = put-IsKeyed (admit object) store h
  stamped-IsKeyed (patch_object before after) store h = put-IsKeyed (admit after) store h
  stamped-IsKeyed (delete_budget namespace name) store h =
      remove-IsKeyed (budget_key namespace name) store h
  stamped-IsKeyed call store h = h

  pub store_after-IsKeyed : (h : History) → IsKeyed (store_after admit initial h)
  unfolding store_after
  store_after-IsKeyed [] = s.keyed
  store_after-IsKeyed (call ∷ calls) = stamped-IsKeyed call _ (store_after-IsKeyed calls)
