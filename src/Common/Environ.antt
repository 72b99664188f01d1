-- ===== src/Common/Environ.antt =====
-- The environment of a process, where the program relies on its variables.
use pinpoint_cpp_examples.Common.{
  ◌≡◌, refl, sym, ap, ◌∙◌, Bool-cases, inl, inr, Option, none, some, List, [], ◌∷◌, Text, text_eq,
  text_eq_iff, if◌then◌else◌,
}

abbrev pub Environ : Type 0
Environ = List (Text × Text)

unfoldable pub getenv : Text → Environ → Option Text
getenv name [] = none
getenv name ((n, value) ∷ env) = if text_eq n name then some value else getenv name env

-- `setenv(name, value, 0)`, which keeps a value that is there.
unfoldable pub setenv : Text → Text → Environ → Environ
setenv name value [] = (name, value) ∷ []
setenv name value ((n, v) ∷ env) =
    if text_eq n name then (n, v) ∷ env else (n, v) ∷ setenv name value env

-- The calls of `setenv` at the start of a `main`.
unfoldable pub set_defaults : List (Text × Text) → Environ → Environ
unfolding setenv
set_defaults [] env = env
set_defaults ((name, value) ∷ defaults) env = set_defaults defaults (setenv name value env)

abbrev pub or_default : Option Text → Option Text → Option Text
or_default (some value) default = some value
or_default none default = default

or_default-none : (o : Option Text) → or_default o none ≡ o
or_default-none none = refl
or_default-none (some v) = refl

-- `setenv` with 0 for overwrite: a variable that is set keeps its value, the named one gets its default, and
-- nothing else changes.
getenv-setenv :
    (asked name value : Text) (env : Environ)
    → getenv asked (setenv name value env)
      ≡ or_default (getenv asked env) (if text_eq name asked then some value else none)
unfolding getenv setenv
getenv-setenv asked name value [] = refl
getenv-setenv asked name value ((n, v) ∷ env) = elim (Bool-cases (text_eq n name)) [
  | inl e ↦
      rw (e, (text_eq_iff n name).0 e)
        (elim (Bool-cases (text_eq name asked)) [
          | inl f ↦ rw f refl
          | inr f ↦ rw f (sym (or_default-none (getenv asked env)))
        ])
  | inr e ↦ rw e (elim (Bool-cases (text_eq n asked)) [
    | inl f ↦ rw f refl
    | inr f ↦ rw f (getenv-setenv asked name value env)
  ])
]

-- The first default of a variable.
abbrev pub default_of : Text → List (Text × Text) → Option Text
default_of asked [] = none
default_of asked ((name, value) ∷ defaults) =
    or_default (if text_eq name asked then some value else none) (default_of asked defaults)

or_default_assoc :
    (o p q : Option Text) → or_default (or_default o p) q ≡ or_default o (or_default p q)
or_default_assoc none p q = refl
or_default_assoc (some v) p q = refl

-- After the calls of `setenv` a variable has the value that the user gave it, and where there is none its
-- default.
pub getenv-set_defaults :
    (asked : Text) (defaults : List (Text × Text)) (env : Environ)
    → getenv asked (set_defaults defaults env)
      ≡ or_default (getenv asked env) (default_of asked defaults)
unfolding set_defaults
getenv-set_defaults asked [] env = sym (or_default-none (getenv asked env))
getenv-set_defaults asked ((name, value) ∷ defaults) env =
    let default : Option Text = if text_eq name asked then some value else none in
    getenv-set_defaults asked defaults (setenv name value env)
    ∙ ap (λ o. or_default o (default_of asked defaults)) (getenv-setenv asked name value env)
    ∙ or_default_assoc (getenv asked env) default (default_of asked defaults)
