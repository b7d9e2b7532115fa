-- ===== src/Cli/Show.antt =====
-- How Go's `fmt` shows the arguments of a command in an error.
use rktlet.Base.{String, ◌<>◌, List, join}

-- %v of a slice of texts
abbrev pub show_args : List String → String
show_args args = "[" <> join " " args <> "]"
