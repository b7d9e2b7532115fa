-- ===== src/Errors.antt =====
-- The errors that rktlet's packages return, a constructor for each place that makes one. An error
-- that wraps another (`%v`) holds it; one of a library or of the operating system is its text.
use rktlet.Base.{String, List}

pub data Error : Type 0 where
  -- what a library, a program or the operating system reported
  external : String → Error
  -- rktlet/runtime/helpers.go
  invalid_container_id invalid_app_name : String → Error
  app_name_not_parsed : Error → Error
  seccomp_not_supported : String → Error
  user_and_username : Error
  attempt_not_parsed : String → Error
  image_status_failed : String → Error → Error
  image_not_found : String → Error
  -- rktlet/runtime/rkt_runtime.go and pod_sandbox.go
  unexpected_result : List String → Error
  not_unmarshalled status_not_converted : Error → Error
  no_image_spec : Error
  no_default_tag : String → Error → Error
  command_failed : Error → Error
  removed : List String → Error
  no_temp_file no_uuid_read : Error → Error
  sandbox_not_started : String → Error
  status_unknown : Error → Error
  sandbox_timeout : Error
  not_implemented : Error
  -- rktlet/image/imagestore.go and rktlet/util/image.go
  image_not_parsed tag_not_applied : String → Error → Error
  images_not_listed image_not_removed : Error → Error
  image_does_not_exist : Error
  image_not_fetched : String → Error → Error
  malformed_fetch : String → List String → Error
  -- a panic, which is no error: an index out of range, a nil pointer
  index_out_of_range nil_dereference : Error
  -- rktlet/cli/cli.go: panics on a value that reflection cannot set, and on a variable not set
  unaddressable_value : Error
  variable_not_set : String → Error
  -- rktlet/runtime/exec.go
  not_done : Error
  -- rktlet/runtime/stage1.go
  malformed_stage1 : String → List String → Error
  -- rktlet/rktlet.go
  not_installed : String → String → Error
  rkt_not_there : String → Error
  -- rktlet/cli/init.go
  not_a_slice : String → Error
