-- ===== src/Importing.antt =====
-- src/redis_rate_limiter/core/importing.py: the dotted paths of callables. The objects of the
-- interpreter, importlib and getattr are parameters.
pub mod Paths
use redis_rate_limiter.Prelude.{
  ℕ, Bool, true, false, not, ◌&&◌, ◌||◌, Option, none, some, List, [], ◌∷◌, ◌++◌, ◌==◌,
  if◌then◌else◌,
}
use redis_rate_limiter.Prelude.Text.{Text, codes}

-- The exceptions: the ValueErrors of `resolve_import_path` and of a path without a dot, what
-- importlib or getattr raise, and the TypeError of `import_string`.
pub data ImportError : Type 0 where
  missing_name lambda nested class_bound no_round_trip no_dot not_found not_callable : ImportError

pub data Imported {ℓ} (A : Type ℓ) : Type ℓ where
  resolved : A → Imported A
  failed : ImportError → Imported A

pub record Interpreter : Type 1 where
  pub Object : Type 0
  -- fn.__module__ and fn.__qualname__, where there are any
  pub module_of : Object → Option Text
  pub qualname_of : Object → Option Text
  -- getattr(importlib.import_module(module_path), func_name), unless one of them raises
  pub attribute : Text → Text → Option Object
  pub is_callable : Object → Bool
  -- resolved is fn
  pub is_same : Object → Object → Bool

-- path.rsplit(".", 1), or `none` when there is no dot
unfoldable pub rsplit : Text → Option (Text × Text)
rsplit [] = none
rsplit (c ∷ path) = elim (rsplit path) [
  | some (module_path, func_name) ↦ some (c ∷ module_path, func_name)
  | none ↦ if c == b'.' then some ([], path) else none
]

unfoldable pub starts_with : Text → Text → Bool
starts_with [] text = true
starts_with (c ∷ part) [] = false
starts_with (c ∷ part) (d ∷ text) = c == d && starts_with part text

-- part in text
unfoldable pub contains : Text → Text → Bool
unfolding starts_with
contains part [] = starts_with part []
contains part (c ∷ text) = starts_with part (c ∷ text) || contains part text

-- f"{module}.{qualname}"
unfoldable pub dotted : Text → Text → Text
dotted module_path qualname = module_path ++ b'.' ∷ qualname

module _ (I : Interpreter) where
  open I use {Object}

  -- The part of `import_string` after the import.
  unfoldable pub check_callable : Option Object → Imported Object
  check_callable none = failed not_found
  check_callable (some func) = if I.is_callable func then resolved func else failed not_callable

  unfoldable pub import_parts : Option (Text × Text) → Imported Object
  unfolding check_callable
  import_parts none = failed no_dot
  import_parts (some (module_path, func_name)) = check_callable (I.attribute module_path func_name)

  unfoldable pub import_string : Text → Imported Object
  unfolding import_parts rsplit
  import_string import_path = import_parts (rsplit import_path)

  -- The round-trip verification.
  unfoldable pub verify : Object → Text → Imported Object → Imported Text
  verify fn import_path (failed e) = failed e
  verify fn import_path (resolved found) =
      if I.is_same found fn then resolved import_path else failed no_round_trip

  -- From the tests of the qualified name on.
  unfoldable pub resolve_named : Object → Text → Text → Imported Text
  unfolding contains verify import_string dotted
  resolve_named fn module_path qualname =
      let import_path = dotted module_path qualname in
      let verified = verify fn import_path (import_string import_path) in
      if contains (codes "<lambda>") qualname
      then failed lambda
      else if contains (codes "<locals>") qualname
      then failed nested
      else if contains (codes ".") qualname
      then failed class_bound
      else verified

  unfoldable pub resolve_names : Object → Option Text → Option Text → Imported Text
  unfolding resolve_named
  resolve_names fn (some module_path) (some qualname) = resolve_named fn module_path qualname
  resolve_names fn none qualname = failed missing_name
  resolve_names fn (some module_path) none = failed missing_name

  unfoldable pub resolve_import_path : Object → Imported Text
  unfolding resolve_names
  resolve_import_path fn = resolve_names fn (I.module_of fn) (I.qualname_of fn)
