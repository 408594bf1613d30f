-- ===== src/Importing/Paths.antt =====
-- A resolved path leads back to its callable.
use redis_rate_limiter.Prelude.{◌≡◌, refl, subst, true, false, Option, none, some, [], ◌∷◌, arith}
use redis_rate_limiter.Prelude.Text.{Text, codes}
use redis_rate_limiter.Importing.{
  Interpreter, Imported, resolved, failed, rsplit, starts_with, contains, dotted, import_string,
  verify, resolve_named, resolve_names, resolve_import_path,
}

rsplit-none : (name : Text) → contains (codes ".") name ≡ false → rsplit name ≡ none
unfolding rsplit contains starts_with
rsplit-none [] h = refl
rsplit-none (c ∷ name) h = ground (arith, rsplit-none name (ground arith))

-- Splitting at the last dot takes a dotted path apart, when the name has no dot.
rsplit-dotted :
    (module_path name : Text)
    → contains (codes ".") name ≡ false
    → rsplit (dotted module_path name) ≡ some (module_path, name)
unfolding rsplit dotted
rsplit-dotted [] name h = rw (rsplit-none name h) refl
rsplit-dotted (c ∷ module_path) name h = rw (rsplit-dotted module_path name h) refl

module _ (I : Interpreter) (sound : (x y : I.Object) → I.is_same x y ≡ true → x ≡ y) where
  verified :
      (fn : I.Object) (path found_path : Text) (o : Imported I.Object)
      → verify I fn path o ≡ resolved found_path
      → (o ≡ resolved fn) × (path ≡ found_path)
  unfolding verify
  verified fn path found_path (failed e) h = ground arith
  verified fn path found_path (resolved found) h = ground (arith, sound found fn)

  named :
      (fn : I.Object) (module_path name path : Text)
      → resolve_named I fn module_path name ≡ resolved path
      → verify I fn (dotted module_path name) (import_string I (dotted module_path name))
        ≡ resolved path
  unfolding resolve_named
  named fn module_path name path h = ground arith

  names_lead_back :
      (fn : I.Object) (m n : Option Text) (path : Text)
      → resolve_names I fn m n ≡ resolved path
      → import_string I path ≡ resolved fn
  unfolding resolve_names
  names_lead_back fn none n path h = ground arith
  names_lead_back fn (some m) none path h = ground arith
  names_lead_back fn (some m) (some n) path h =
      let (found, same_path) =
        verified fn (dotted m n) path (import_string I (dotted m n)) (named fn m n path h) in
      subst (λ p. import_string I p ≡ resolved fn) same_path found

  -- Where `is` tells objects apart: a path that `resolve_import_path` returns, `import_string` resolves
  -- to the very callable it was made of.
  pub import_string-resolve_import_path :
      (fn : I.Object) (path : Text)
      → resolve_import_path I fn ≡ resolved path
      → (import_string I path ≡ resolved fn)
  unfolding resolve_import_path
  import_string-resolve_import_path fn path h =
      names_lead_back fn (I.module_of fn) (I.qualname_of fn) path h
