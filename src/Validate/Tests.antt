-- ===== src/Validate/Tests.antt =====
-- validate-commands on a small repository.
use novagate.Base.{◌≡◌, ◌↔◌, refl, true, false, Option, some, List, [], ◌∷◌, if◌then◌else◌}
use novagate.Base.Key.{get, put, bytes_beq}
use novagate.Protocol.Bytes.{Bytes}
use novagate.Server.Registry.{ascii}
use novagate.Validate.{
  ScanResult, Match, Pattern, cmd_def, cmd_def_decimal, register_method, bridge_call,
  router_register, dispatcher_register,
}
use novagate.Validate.Checks.{validate_consistency}
use novagate.Validate.Program.{run, parse_fixed}
use novagate.Validate.Sound.{IsConsistent, validate_consistency_iff}
use novagate.Validate.Unique.{IsWired, run_zero}

-- A file's text is its path, and each expression finds one command in one of the three.
abbrev all_files : Bytes → Option Bytes
all_files path = some path

abbrev ping : Match
ping = record { start = 3; name = ascii "CmdPing"; raw = ascii "0x0001" }

abbrev in_file : Bytes → Bytes → List Match
in_file path text = if bytes_beq text path then ping ∷ [] else []

abbrev find_ping : Pattern → Bytes → List Match
find_ping cmd_def text = in_file (ascii "commands.go") text
find_ping cmd_def_decimal text = []
find_ping register_method text = in_file (ascii "main.go") text
find_ping bridge_call text = in_file (ascii "main.go") text
find_ping router_register text = []
find_ping dispatcher_register text = in_file (ascii "registry.go") text

ping_is_wired :
    run all_files find_ping (ascii "commands.go") (ascii "main.go") (ascii "registry.go") true ≡ 0
unfolding run get put
ping_is_wired = refl

-- Without a handler the exit code is 1.
ping_without_handler :
    run all_files find_ping (ascii "commands.go") (ascii "main.go") (ascii "other.go") false ≡ 1
unfolding run get put
ping_without_handler = refl

run_zero_example :
    IsWired
      (parse_fixed all_files find_ping
        (ascii "commands.go")
        (ascii "main.go")
        (ascii "registry.go")).0
      true
run_zero_example =
    run_zero all_files find_ping (ascii "commands.go") (ascii "main.go") (ascii "registry.go") true
      ping_is_wired

abbrev lonely : ScanResult
lonely = record {
  cmd_vals = (ascii "CmdPing", 1) ∷ [];
  cmd_loc = [];
  invalid_defs = [];
  registered = [];
  bridged = [];
  handled = [];
  scanned = 1;
}

validate_consistency_iff_example :
    (validate_consistency lonely false ≡ []) ↔ IsConsistent lonely false
validate_consistency_iff_example = validate_consistency_iff lonely false
