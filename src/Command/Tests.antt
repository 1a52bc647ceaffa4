-- ===== src/Command/Tests.antt =====
-- The shell of one user, who is named in the template.
use webshell.Base.{◌≡◌, refl, some, List, [], ◌∷◌, Text, codes, map}
use webshell.HashMap
use webshell.HashMap.{HashMap}
use webshell.Base.Replace.{replace, starts_with}
use webshell.Base.Utf8.{from_utf8, utf8_scan}
use webshell.Command.{build_command, resolve_part, is_server_secret_env}
use webshell.Command.Environment.{Starts, build_command_lem}
use webshell.Samples.{builder, inherited, builder-IsCommandBuilder}

abbrev template : List Text
template = codes "login" ∷ codes "-f{user}" ∷ []

abbrev configured : HashMap Text Text
configured = (codes "TERM", codes "vt100") ∷ []

-- Each part of the template with the user in it.
test_template : map (resolve_part (codes "ann")) template ≡ codes "login" ∷ codes "-fann" ∷ []
unfolding replace starts_with
test_template = refl

abbrev shell_of_ann : List Text × HashMap Text Text
shell_of_ann = (
  codes "login" ∷ codes "-fann" ∷ [],
  (codes "TERM", codes "vt100")
      ∷ (codes "LOGNAME", codes "web")
      ∷ (codes "USER", codes "web")
      ∷ (codes "HOME", codes "/home/web")
      ∷ (codes "PATH", codes "/bin")
      ∷ [],
)

test_built :
    build_command builder template
      (codes "ann")
      (codes "web")
      (codes "/home/web")
      configured
      inherited
    ≡ some shell_of_ann
unfolding build_command replace from_utf8 HashMap.insert HashMap.remove is_server_secret_env
    utf8_scan starts_with
test_built = refl

build_command_lem_example :
    Starts builder inherited builder-IsCommandBuilder
      (map (resolve_part (codes "ann")) template)
      (codes "web")
      (codes "/home/web")
      configured
      shell_of_ann
unfolding HashMap.get
build_command_lem_example =
    build_command_lem builder inherited builder-IsCommandBuilder template (codes "ann")
      (codes "web") (codes "/home/web") configured shell_of_ann (refl, tt) test_built
