-- ===== src/Info.antt =====
-- `parseInfoToMap` of internal/controller/dragonfly_instance.go: the reply to an `INFO` command.
use dragonfly_operator.Prelude.{◌≡◌, refl, String, ◌||◌, List, [], ◌∷◌, ◌==◌, if◌then◌else◌}
use dragonfly_operator.Prelude.Dict.{Dict, insert}
use dragonfly_operator.Text.{split, split_two, has_prefix, trim_space, trim_suffix_cr}

-- `data[key] = value`, if the line has a colon.
abbrev put_parts : List String → Dict String → Dict String
put_parts (key ∷ value ∷ []) info = insert (trim_space key) (trim_space (trim_suffix_cr value)) info
put_parts _ info = info

-- One round of the loop.
unfoldable pub put_line : String → Dict String → Dict String
put_line text info =
    let line = trim_space text in
    if line == "" || has_prefix line "#" then info else put_parts (split_two b':' line) info

unfoldable pub put_lines : List String → Dict String → Dict String
unfolding put_line
put_lines [] info = info
put_lines (line ∷ lines) info = put_lines lines (put_line line info)

unfoldable pub parse_info_to_map : String → Dict String
unfolding put_lines
parse_info_to_map info = put_lines (split b'\n' info) []

parse_info_to_map-test :
    parse_info_to_map
      "# Replication\r\nrole:slave\r\nmaster_host: 10.0.0.1 \r\nslave_repl_offset:42\r\n"
    ≡ ("role", "slave") ∷ ("master_host", "10.0.0.1") ∷ ("slave_repl_offset", "42") ∷ []
unfolding parse_info_to_map split split_two has_prefix trim_space trim_suffix_cr insert
parse_info_to_map-test = refl
