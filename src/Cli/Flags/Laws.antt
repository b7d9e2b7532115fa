-- ===== src/Cli/Flags/Laws.antt =====
-- The flags that a configuration gives.
use mathlib.Core.List.{append-nil, append_assoc}
use text.Mathlib.TextLemmas.{append-eq-nil_iff, cons≢nil}
use rktlet.Base.{
  ◌≡◌, refl, ◌≢◌, String, ◌<>◌, false, some, List, [], ◌∷◌, ◌++◌, join, ◌==◌, text_eq,
  if◌then◌else◌, Bool-cases, inl, inr, arith, eq_iff,
}
use rktlet.Cli.Flags.{
  FieldValue, a_bool, a_string, a_slice, flag_form, get_long_flag_form_of_field,
  get_argument_form_of_struct, get_flag_form_of_struct, CliConfig, fields_of, show_bool, add_flag,
}

-- A flag with its value, "--tag=value".
abbrev pub flag : String → String → String
flag tag value = "--" <> tag <> "=" <> value

flag-ne-nil : (tag value : String) → flag tag value ≢ ""
flag-ne-nil tag value e = cons≢nil ((append-eq-nil_iff.0 e).0)

flag-eq-nil : (tag value : String) → (flag tag value == "") ≡ false
flag-eq-nil tag value = ground (arith, eq_iff (flag tag value) "", flag-ne-nil tag value)

-- The flag of a text that is not empty, and of a list that is not empty.
abbrev pub text_flag : String → String → List String
text_flag tag value = if value == "" then [] else flag tag value ∷ []

abbrev pub list_flag : String → List String → List String
list_flag tag [] = []
list_flag tag (v ∷ values) = flag tag (join "," (v ∷ values)) ∷ []

-- What one field adds.
abbrev field_flags : String → FieldValue → List String
field_flags tag (a_bool b) = flag tag (show_bool b) ∷ []
field_flags tag (a_string s) = text_flag tag s
field_flags tag (a_slice l) = list_flag tag l

add_flag_lem :
    (tag : String) (v : FieldValue) (flags : List String)
    → tag ≢ ""
    → add_flag (get_long_flag_form_of_field (tag, some v)) flags ≡ field_flags tag v ++ flags
unfolding get_long_flag_form_of_field flag_form
add_flag_lem tag (a_bool b) flags h =
    let tagged : (tag == "") ≡ false = ground (arith, eq_iff tag "") in
    rw (tagged, flag-eq-nil tag (show_bool b)) refl
add_flag_lem tag (a_string s) flags h =
    let tagged : (tag == "") ≡ false = ground (arith, eq_iff tag "") in
    elim (Bool-cases (s == "")) [
      | inl empty ↦ rw (tagged, empty) refl
      | inr full ↦ rw (tagged, full, flag-eq-nil tag s) refl
    ]
add_flag_lem tag (a_slice []) flags h =
    let tagged : (tag == "") ≡ false = ground (arith, eq_iff tag "") in rw tagged refl
add_flag_lem tag (a_slice (s ∷ l)) flags h =
    let tagged : (tag == "") ≡ false = ground (arith, eq_iff tag "") in
    rw (tagged, flag-eq-nil tag (join "," (s ∷ l))) refl

-- The global flags of a configuration are, in this order, `--debug` with its value, each directory
-- that is set, and the insecure options joined by commas if there are any.
pub get_flag_form_of_struct_lem :
    (cfg : CliConfig)
    → get_flag_form_of_struct (fields_of cfg)
      ≡ flag "debug" (show_bool cfg.debug)
        ∷ (text_flag "dir" cfg.dir
            ++ text_flag "local-config" cfg.local_config_dir
            ++ text_flag "user-config" cfg.user_config_dir
            ++ text_flag "system-config" cfg.system_config_dir
            ++ list_flag "insecure-options" cfg.insecure_options)
unfolding get_flag_form_of_struct get_argument_form_of_struct
get_flag_form_of_struct_lem cfg =
    rw
      (
        add_flag_lem "insecure-options" (a_slice cfg.insecure_options) [] (λ e. cons≢nil e),
        add_flag_lem "system-config" (a_string cfg.system_config_dir) _ (λ e. cons≢nil e),
        add_flag_lem "user-config" (a_string cfg.user_config_dir) _ (λ e. cons≢nil e),
        add_flag_lem "local-config" (a_string cfg.local_config_dir) _ (λ e. cons≢nil e),
        add_flag_lem "dir" (a_string cfg.dir) _ (λ e. cons≢nil e),
        add_flag_lem "debug" (a_bool cfg.debug) _ (λ e. cons≢nil e),
      )
      (simp (append-nil, append_assoc))
