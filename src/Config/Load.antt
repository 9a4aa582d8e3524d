-- ===== src/Config/Load.antt =====
-- Reading the configuration: `loadConfiguration` of src/configuration.hpp and the arguments of
-- `main` in src/main.cpp.
use virtual_media.Base.{
  ◌≡◌, refl, ◌∙◌, Result-cases, Bool, true, false, Option, none, some, List, [], ◌∷◌, ◌++◌, Text,
  codes, text_eq, if◌then◌else◌, Result, ok, err, Exception, type_error, out_of_range, ℤ, negsuc,
  arith, inl, inr, ◌⊎◌,
}
use virtual_media.Config.{Json, MountPoints, setup_variables}

-- The configuration once it is read: whether it is valid, and the variables where they were set.
pub record Loaded : Type 0 where
  pub valid : Bool
  pub variables : Option (ℤ × MountPoints)

-- How reading ends: `terminated` for an exception that leaves the function, which is `noexcept`, and
-- for a timeout whose conversion to `int` is undefined.
pub data Loading : Type 0 where
  loaded : Loaded → Loading
  terminated : Loading

-- The handlers of `nlohmann::json::exception` and of `std::out_of_range`.
abbrev pub is_handled : Exception → Bool
is_handled type_error = true
is_handled out_of_range = true
is_handled _ = false

-- `loadConfiguration`: `none` where the file cannot be opened, else what the library's parser gives,
-- whose errors are `type_error` like the others of the library. What `setupVariables` returns is not
-- looked at.
unfoldable pub load_configuration : Bool → Option (Result Json) → Loading
load_configuration legacy_enabled none = loaded (record { valid = false; variables = none })
load_configuration legacy_enabled (some (err e)) =
    if is_handled e then loaded (record { valid = false; variables = none }) else terminated
load_configuration legacy_enabled (some (ok j)) = elim (setup_variables legacy_enabled j) [
  | ok v ↦ loaded (record { valid = true; variables = some v })
  | err e ↦ if is_handled e then loaded (record { valid = false; variables = none }) else terminated
]

-- The loop over the arguments of `main` behind the program's name: a `--config` takes the next one.
unfoldable pub config_path : Text → List Text → Text
config_path path [] = path
config_path path (a ∷ []) = path
config_path path (a ∷ b ∷ rest) = elim (text_eq a (codes "--config")) [
  | true ↦ config_path b rest
  | false ↦ config_path path (b ∷ rest)
]

-- The exit code of `main` before it sets up the service; `none` where it goes on. Its arguments are
-- the configuration and whether the directory of the sockets can be made.
unfoldable pub exit_early : Loaded → Bool → Option ℤ
exit_early c directory_made =
    if c.valid then (if directory_made then none else some (negsuc 0)) else some (negsuc 0)

abbrev pub NoConfig : List Text → Type 0
NoConfig [] = Unit
NoConfig (a ∷ rest) = (text_eq a (codes "--config") ≡ false) × NoConfig rest

config_path_none : (path : Text) (xs : List Text) → NoConfig xs → config_path path xs ≡ path
unfolding config_path
config_path_none path [] h = refl
config_path_none path (a ∷ []) h = refl
config_path_none path (a ∷ b ∷ rest) h =
    rw (h.0, config_path) (config_path_none path (b ∷ rest) h.1)

config_path-append :
    (path p : Text) (xs ys : List Text)
    → NoConfig xs
    → config_path path (xs ++ codes "--config" ∷ p ∷ ys) ≡ config_path p ys
unfolding config_path text_eq
config_path-append path p [] ys h = refl
config_path-append path p (a ∷ []) ys h = rw (h.0, config_path) refl
config_path-append path p (a ∷ b ∷ xs) ys h =
    rw (h.0, config_path) (config_path-append path p (b ∷ xs) ys h.1)

config_path-last :
    (path : Text) (xs : List Text)
    → NoConfig xs
    → config_path path (xs ++ codes "--config" ∷ []) ≡ path
unfolding config_path
config_path-last path [] h = refl
config_path-last path (a ∷ []) h = rw (h.0, config_path) refl
config_path-last path (a ∷ b ∷ xs) h = rw (h.0, config_path) (config_path-last path (b ∷ xs) h.1)

-- The path of the configuration is the argument behind `--config`, whatever other arguments stand
-- around; it is empty without one, and where `--config` is the last argument; and of two the
-- later counts.
pub config_path_lem :
    (p q : Text) (xs ys zs : List Text)
    → NoConfig xs
    → NoConfig ys
    → NoConfig zs
    → (config_path [] (xs ++ codes "--config" ∷ p ∷ ys) ≡ p)
      × (config_path [] xs ≡ [])
      × (config_path [] (xs ++ codes "--config" ∷ []) ≡ [])
      × (config_path [] (xs ++ codes "--config" ∷ p ∷ (ys ++ codes "--config" ∷ q ∷ zs)) ≡ q)
config_path_lem p q xs ys zs h k l = (
  config_path-append [] p xs ys h ∙ config_path_none p ys k,
  config_path_none [] xs h,
  config_path-last [] xs h,
  config_path-append [] p xs _ h ∙ config_path-append p q ys zs k ∙ config_path_none q zs l,
)

handled_invalid :
    (b : Bool) (c : Loaded)
    → (if b then loaded (record { valid = false; variables = none }) else terminated) ≡ loaded c
    → c.valid ≡ false
handled_invalid true c h = ground arith
handled_invalid false c h = ground arith

-- A service that goes on has the directory of its sockets and has read a file that the library
-- parses, whose variables `setupVariables` could set; these are its variables.
pub load_configuration-exit_early :
    (legacy_enabled : Bool) (file : Option (Result Json)) (c : Loaded) (made : Bool)
    → load_configuration legacy_enabled file ≡ loaded c
    → exit_early c made ≡ none
    → (made ≡ true)
      × (j : Json) × (v : ℤ × MountPoints) × (file ≡ some (ok j))
      × (setup_variables legacy_enabled j ≡ ok v)
      × (c.variables ≡ some v)
unfolding load_configuration exit_early
load_configuration-exit_early legacy_enabled none c made h k = ground arith
load_configuration-exit_early legacy_enabled (some (err e)) c made h k =
    ground (arith, handled_invalid (is_handled e) c h)
load_configuration-exit_early legacy_enabled (some (ok j)) c made h k =
    elim (Result-cases (setup_variables legacy_enabled j)) [
      | inl (e, r) ↦ ground (arith, handled_invalid (is_handled e) c)
      | inr (v, r) ↦ (ground arith, j, v, refl, r, ground arith)
    ]

abbrev pub invalid : Loaded
invalid = record { valid = false; variables = none }

abbrev pub with_variables : ℤ × MountPoints → Loaded
with_variables v = record { valid = true; variables = some v }

-- The file reads, and is a document that `setupVariables` takes these variables from.
abbrev pub IsConfigured : Bool → Option (Result Json) → ℤ × MountPoints → Type 0
IsConfigured legacy_enabled file v =
    (j : Json) × (file ≡ some (ok j)) × (setup_variables legacy_enabled j ≡ ok v)

-- How reading can end.
abbrev pub LoadsAs : Bool → Option (Result Json) → Loading → Type 0
LoadsAs legacy_enabled file l =
    (l ≡ terminated)
    ⊎ (l ≡ loaded invalid)
    ⊎ ((v : ℤ × MountPoints) × IsConfigured legacy_enabled file v × (l ≡ loaded (with_variables v)))

handled-LoadsAs :
    (legacy_enabled : Bool) (file : Option (Result Json)) (b : Bool)
    → LoadsAs legacy_enabled file (if b then loaded invalid else terminated)
handled-LoadsAs legacy_enabled file true = inr (inl refl)
handled-LoadsAs legacy_enabled file false = inl refl

pub load_configuration-cases :
    (legacy_enabled : Bool) (file : Option (Result Json))
    → LoadsAs legacy_enabled file (load_configuration legacy_enabled file)
unfolding load_configuration
load_configuration-cases b none = inr (inl refl)
load_configuration-cases b (some (err e)) = handled-LoadsAs b (some (err e)) (is_handled e)
load_configuration-cases b (some (ok j)) = elim (Result-cases (setup_variables b j)) [
  | inl (e, q) ↦ rw (q, load_configuration) (handled-LoadsAs b (some (ok j)) (is_handled e))
  | inr (v, q) ↦ rw (q, load_configuration) (inr (inr (v, (j, refl, q), refl)))
]
