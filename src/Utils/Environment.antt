-- ===== src/Utils/Environment.antt =====
-- utils/system_util.go: numbers, truth values and the home directory, from the environment. `getenv` is the
-- environment, in which a missing variable is empty.
use pole.Prelude.{
  ℕ, Bool, true, false, ◌||◌, Option, none, some, List, [], ◌∷◌, ◌++◌, Text, codes, str_eq, Outcome,
  if◌then◌else◌,
}
use pole.Storage.Kv.{Result, ok, err}
use pole.Utils.Integers.{atoi, low_bits, check_err}

is_spelled : Text → List Text → Bool
is_spelled val [] = false
is_spelled val (t ∷ ts) = str_eq val t || is_spelled val ts

-- `strconv.ParseBool`
unfoldable pub parse_bool : Text → Option Bool
unfolding is_spelled
parse_bool val =
    if is_spelled val
      (codes "1" ∷ codes "t" ∷ codes "T" ∷ codes "TRUE" ∷ codes "true" ∷ codes "True" ∷ [])
    then some true
    else if is_spelled val
        (codes "0" ∷ codes "f" ∷ codes "F" ∷ codes "FALSE" ∷ codes "false" ∷ codes "False" ∷ [])
    then some false
    else none

abbrev pub or_default : {A : Type 0} → A → Option A → A
or_default def_val none = def_val
or_default def_val (some a) = a

module _ (getenv : Text → Text) where
  unfoldable pub get_int_from_env : Text → Option ℕ
  unfolding atoi
  get_int_from_env key = atoi (getenv key)

  unfoldable pub get_bool_from_env : Text → Option Bool
  unfolding parse_bool
  get_bool_from_env key = parse_bool (getenv key)

  abbrev pub get_string_from_env : Text → Text
  get_string_from_env key = getenv key

  unfoldable pub get_int8_from_env_optional : Text → ℕ → ℕ
  unfolding get_int_from_env
  get_int8_from_env_optional key def_val = or_default def_val (low_bits 8 (get_int_from_env key))

  unfoldable pub get_int16_from_env_optional : Text → ℕ → ℕ
  unfolding get_int_from_env
  get_int16_from_env_optional key def_val = or_default def_val (low_bits 16 (get_int_from_env key))

  unfoldable pub get_int32_from_env_optional : Text → ℕ → ℕ
  unfolding get_int_from_env
  get_int32_from_env_optional key def_val = or_default def_val (low_bits 32 (get_int_from_env key))

  unfoldable pub get_int64_from_env_optional : Text → ℕ → ℕ
  unfolding get_int_from_env
  get_int64_from_env_optional key def_val = or_default def_val (low_bits 64 (get_int_from_env key))

  unfoldable pub get_int_from_env_optional : Text → ℕ → ℕ
  unfolding get_int_from_env
  get_int_from_env_optional key def_val = or_default def_val (get_int_from_env key)

  unfoldable pub get_bool_from_env_optional : Text → Bool → Bool
  unfolding get_bool_from_env
  get_bool_from_env_optional key def_val = or_default def_val (get_bool_from_env key)

  unfoldable pub get_int8_from_env : Text → Outcome ℕ
  unfolding get_int_from_env
  get_int8_from_env key = check_err (low_bits 8 (get_int_from_env key))

  unfoldable pub get_int16_from_env : Text → Outcome ℕ
  unfolding get_int_from_env
  get_int16_from_env key = check_err (low_bits 16 (get_int_from_env key))

  unfoldable pub get_int32_from_env : Text → Outcome ℕ
  unfolding get_int_from_env
  get_int32_from_env key = check_err (low_bits 32 (get_int_from_env key))

  unfoldable pub get_int64_from_env : Text → Outcome ℕ
  unfolding get_int_from_env
  get_int64_from_env key = check_err (low_bits 64 (get_int_from_env key))

  abbrev pub or_blank : Text → Text → Result Text
  or_blank msg [] = err msg
  or_blank msg (c ∷ home) = ok (c ∷ home)

  unfoldable pub home_windows : Result Text
  home_windows =
      let drive = getenv (codes "HOMEDRIVE") in
      let path = getenv (codes "HOMEPATH") in
      or_blank (codes "HOMEDRIVE, HOMEPATH, and USERPROFILE are blank")
        (if str_eq drive [] || str_eq path [] then getenv (codes "USERPROFILE") else drive ++ path)

  abbrev pub home_or_shell : Text → Result Text → Result Text
  home_or_shell [] (err e) = err e
  home_or_shell [] (ok result) = or_blank (codes "blank output when reading home directory") result
  home_or_shell (c ∷ home) shell = ok (c ∷ home)

  -- `shell` is what the shell prints, without the space around it.
  unfoldable pub home_unix : Result Text → Result Text
  home_unix shell = home_or_shell (getenv (codes "HOME")) shell

  -- `current` is the home directory of the current user, if it is known.
  unfoldable pub home_dir : Option Text → Bool → Result Text → Result Text
  unfolding home_windows home_unix
  home_dir (some dir) is_windows shell = ok dir
  home_dir none is_windows shell = if is_windows then home_windows else home_unix shell
