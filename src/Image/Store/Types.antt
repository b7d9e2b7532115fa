-- ===== src/Image/Store/Types.antt =====
-- The types of the image service: of the CRI, and of what rkt prints. json.Unmarshal into rkt's and
-- appc's types is a parameter: it gives the value, or an error.
use rktlet.Base.{ℕ, String, Option, List, Result}
use rktlet.Base.Int.{ℤ}
use rktlet.Errors.{Error}

pub record Image : Type 0 where
  pub id : String
  pub repo_tags : List String
  pub repo_digests : List String
  pub size : ℕ
  pub uid : Option ℤ
  pub username : String

-- The name in the filter's image spec, if it has one.
pub record ImageFilter : Type 0 where
  pub image : Option String

-- rkt's ImageListEntry, less its times
pub record ImageListEntry : Type 0 where
  pub id : String
  pub name : String
  pub size : ℤ

-- appc's ImageManifest: its method GetAnnotation, and the user of its app if it has an app
pub record Manifest : Type 0 where
  pub get_annotation : String → Option String
  pub app_user : Option String

pub record Decoders : Type 0 where
  pub images : String → Result Error (List ImageListEntry)
  pub manifest : String → Result Error Manifest
