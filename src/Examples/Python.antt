-- ===== src/Examples/Python.antt =====
-- The paths of callables and the scripts' cache.
use redis_rate_limiter.Prelude.{ℕ, ◌≡◌, refl, inr, true, Option, none, some, [], ◌∷◌, arith}
use redis_rate_limiter.Prelude.Text.{Text, codes, same, same→eq}
use redis_rate_limiter.Importing.{
  Interpreter, resolved, rsplit, contains, starts_with, dotted, import_string, import_parts,
  check_callable, verify, resolve_named, resolve_names, resolve_import_path,
}
use redis_rate_limiter.Importing.Paths.{import_string-resolve_import_path}
use redis_rate_limiter.Registration.{Server, new_client, eval_script}
use redis_rate_limiter.Registration.Recovery.{IsConsistent, Ran, eval_script_lem}

-- Every name of the module app is a function, and is its name.
abbrev app : Interpreter
app = record {
  Object = Text;
  module_of = λ fn. some (codes "app");
  qualname_of = λ fn. some fn;
  attribute = λ module_path name. some name;
  is_callable = λ fn. true;
  is_same = same;
}

import_string-resolve_import_path_example :
    import_string app (codes "app.send") ≡ resolved (codes "send")
unfolding resolve_import_path resolve_names resolve_named verify import_string import_parts
    check_callable rsplit contains starts_with dotted
import_string-resolve_import_path_example =
    import_string-resolve_import_path app same→eq (codes "send") (codes "app.send") refl

abbrev held : Text → ℕ → Option (ℕ × Text)
held [] db = none
held (c ∷ source) db = some (db, source)

-- A server that has every script; the reply is the script's source.
abbrev server : Server
server = record {
  Db = ℕ;
  Reply = Text;
  script_load = λ source db. (db, b's' ∷ source);
  evalsha = held;
  sha1 = λ source. b's' ∷ source;
  runs = λ source db. (db, source);
  script_load-sha1 = λ source db. refl;
  evalsha_outcome = λ source db. inr refl;
  evalsha_loaded = λ source db. refl;
}

new_client-IsConsistent : IsConsistent server (λ name. name) new_client
new_client-IsConsistent = record {
  sources_read = λ name source h. ground arith;
  shas_of = λ name sha h. ground arith;
}

eval_script_lem_example :
    Ran server
      (λ name. name)
      (codes "acquire.lua")
      7
      (eval_script server (λ name. name) (codes "acquire.lua") new_client 7).1
      (eval_script server (λ name. name) (codes "acquire.lua") new_client 7).2
eval_script_lem_example =
    eval_script_lem server (λ name. name) (codes "acquire.lua") new_client 7 new_client-IsConsistent
