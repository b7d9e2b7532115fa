-- ===== src/Cli/Flags.antt =====
-- rktlet/cli/cli.go: rkt's global flags, read off the `flag` tags of a struct. A struct is the list
-- of its fields, as reflection shows them.
pub mod Laws
use rktlet.Base.{
  String, ◌<>◌, Bool, true, false, Option, none, some, List, [], ◌∷◌, join, ◌==◌, text_eq,
  if◌then◌else◌, Result, ok, err,
}
use rktlet.Errors.{Error, unaddressable_value}

-- The value of a field, by its kind.
pub data FieldValue : Type 0 where
  a_bool : Bool → FieldValue
  a_string : String → FieldValue
  a_slice : List String → FieldValue

-- The `flag` tag ("" if the field has none) and the value (none if it is not valid).
abbrev pub Field : Type 0
Field = String × Option FieldValue

pub data FlagError : Type 0 where
  flag_tag_not_found struct_field_not_initialized : FlagError

abbrev pub show_bool : Bool → String
show_bool true = "true"
show_bool false = "false"

-- The switch on the kind: "--%v=%v", or "" for an empty slice or text.
unfoldable pub flag_form : String → FieldValue → String
flag_form tag (a_slice []) = ""
flag_form tag (a_slice (s ∷ args)) = "--" <> tag <> "=" <> join "," (s ∷ args)
flag_form tag (a_string s) = if s == "" then "" else "--" <> tag <> "=" <> s
flag_form tag (a_bool b) = "--" <> tag <> "=" <> show_bool b

abbrev valid_form : String → Option FieldValue → Result FlagError String
valid_form tag none = err struct_field_not_initialized
valid_form tag (some v) = ok (flag_form tag v)

unfoldable pub get_long_flag_form_of_field : Field → Result FlagError String
get_long_flag_form_of_field (tag, value) =
    if tag == "" then err flag_tag_not_found else valid_form tag value

-- One round of the loop: a field with an error or an empty form is passed over.
abbrev add_flag : Result FlagError String → List String → List String
add_flag (err e) flags = flags
add_flag (ok form) flags = if form == "" then flags else form ∷ flags

unfoldable pub get_argument_form_of_struct : List Field → List String
get_argument_form_of_struct [] = []
get_argument_form_of_struct (field ∷ fields) =
    add_flag (get_long_flag_form_of_field field) (get_argument_form_of_struct fields)

unfoldable pub get_flag_form_of_struct : List Field → List String
get_flag_form_of_struct fields = get_argument_form_of_struct fields

pub record CliConfig : Type 0 where
  pub debug : Bool
  pub dir : String
  pub local_config_dir : String
  pub user_config_dir : String
  pub system_config_dir : String
  pub insecure_options : List String

-- The fields of the struct with their tags, in the order of the declaration.
abbrev pub fields_of : CliConfig → List Field
fields_of cfg =
    ("debug", some (a_bool cfg.debug))
    ∷ ("dir", some (a_string cfg.dir))
    ∷ ("local-config", some (a_string cfg.local_config_dir))
    ∷ ("user-config", some (a_string cfg.user_config_dir))
    ∷ ("system-config", some (a_string cfg.system_config_dir))
    ∷ ("insecure-options", some (a_slice cfg.insecure_options))
    ∷ []

-- The loop of Merge. It sets the fields of `newCfg` itself, which is passed by value and so cannot
-- be set by reflection: a panic at the first field that is valid.
abbrev merge_fields : CliConfig → List Field → Result Error CliConfig
merge_fields cfg [] = ok cfg
merge_fields cfg ((tag, none) ∷ fields) = merge_fields cfg fields
merge_fields cfg ((tag, some value) ∷ fields) = err unaddressable_value

unfoldable pub merge : CliConfig → CliConfig → Result Error CliConfig
merge cfg new_cfg = merge_fields cfg (fields_of new_cfg)
