-- ===== src/Tests/Documents.antt =====
-- Runs of the parser, the signatures, the escapes and the volumes on small documents.
use pantavisor.Prelude.{
  ◌≡◌, refl, String, true, false, ◌&&◌, none, some, is_some, List, [], ◌∷◌, All, all, str_eq,
  if◌then◌else◌, arith,
}
use pantavisor.Prelude.Int.{pos}
use pantavisor.Platforms.{
  pv_platforms_default_runlevel, pv_platform_get_by_name, promote_first, pv_platform_add,
  pv_platforms_remove_not_installed, root_configured, set_rest, Platform, plat_installed,
}
use pantavisor.Platforms.Runlevel.{IsLevelled}
use pantavisor.State.{
  pv_jsons_add, pv_objects_add, pv_state_validate, spec_system1, PvState, pv_state_new,
}
use pantavisor.State.Transfer.Pointers.{IsLinked}
use pantavisor.Json.{
  pv_json_get_key_count, pv_json_get_value, get_value, JsonTok, json_string, json_object,
  pv_json_format,
}
use pantavisor.Json.Escape.{read-format, read_formatted}
use pantavisor.Parser.{do_lookup_json_key, ParserEnv}
use pantavisor.Parser.System.{
  parse_bsp, parse_keys, system1_link_object_json_platforms, link_items, item_platform, parsed,
  system1_parse,
}
use pantavisor.Parser.Laws.{parsed_state-IsReady}
use pantavisor.Platforms.Start.{CtrlStart}
use pantavisor.Volumes.{pv_volumes_mount, pv_volumes_unmount, parsed_volumes_mount}
use pantavisor.Str.{has_prefix, strrchr, strtok}
use pantavisor.Parser.RunJson.{
  parse_platform, platform_actions, do_action_for_name, do_action_for_one_volume, runlevel_named,
}
use pantavisor.Signature.{SigEnv, Headers, sb_strict, pv_signature_parse_json, pv_signature_verify}
use pantavisor.Signature.Laws.{item_holds, is_covered, strict_verifies_signed}

abbrev text : String → JsonTok
text s = record { kind = json_string; text = s }

-- A state with a bsp and one container, whose root file system is an object.
abbrev library : ParserEnv
library = record {
  tokens = λ s.
      if str_eq s "state"
      then text "bsp/run.json" ∷ record { kind = json_object; text = "bsp" } ∷ []
      else if str_eq s "bsp"
      then text "linux" ∷ text "kernel.img" ∷ []
      else [];
  object_keys = λ s.
      if str_eq s "state"
      then some (
          ("bsp/run.json", "bsp")
          ∷ ("web/run.json", "web")
          ∷ ("web/root.squashfs", "id1")
          ∷ ("web/src.json", "src")
          ∷ ("_config/web/a.json", "conf")
          ∷ [])
      else if str_eq s "bsp"
      then some (("linux", "kernel.img") ∷ [])
      else if str_eq s "web"
      then some (("name", "web") ∷ ("config", "lxc.conf") ∷ ("root-volume", "root.squashfs") ∷ [])
      else none;
  array_items = λ s. none;
  calloc = λ ps. 64;
}

abbrev web : Platform
web = record {
  addr = 64;
  name = "web";
  ptype = "";
  init_pid = pos 0;
  status = plat_installed;
  runlevel = pos 1;
  mgmt = true;
  updated = false;
  config = some "lxc.conf";
}

abbrev web_state : PvState
web_state = record {
  rev = "7";
  spec = spec_system1;
  image = record { kernel_or_fit = some "kernel.img"; fdt = none; initrd = none };
  platforms = web ∷ [];
  volumes = record { name = "root.squashfs"; plat = some 64 } ∷ [];
  addons = [];
  objects = record { name = "web/root.squashfs"; id = "id1"; size = 0; plat = some 64 } ∷ [];
  jsons =
      record { name = "_config/web/a.json"; value = "conf"; plat = some 64 }
      ∷ record { name = "web/run.json"; value = "web"; plat = some 64 }
      ∷ record { name = "bsp/run.json"; value = "bsp"; plat = none }
      ∷ [];
  json = "state";
  is_local = false;
}

web_parsed : system1_parse library "state" (pv_state_new "7" spec_system1) ≡ parsed web_state
unfolding system1_parse pv_state_new pv_json_get_key_count pv_json_get_value get_value parse_bsp
    parse_keys has_prefix strrchr parse_platform do_lookup_json_key platform_actions
    system1_link_object_json_platforms link_items pv_jsons_add pv_objects_add strtok
    pv_state_validate pv_platforms_default_runlevel pv_platform_get_by_name do_action_for_name
    do_action_for_one_volume runlevel_named item_platform promote_first pv_platform_add
    pv_platforms_remove_not_installed root_configured set_rest
web_parsed = refl

parsed_state-IsReady_example : IsLinked web_state × All IsLevelled web_state.platforms
parsed_state-IsReady_example =
    parsed_state-IsReady library "state" "7" spec_system1 web_state web_parsed

abbrev first_pid : CtrlStart
first_pid p = some (pos 8)

parsed_volumes_mount_example :
    (is_some (pv_volumes_mount (λ v. true) true 0 web_state) ≡ true)
    × (is_some (pv_volumes_unmount (λ v. true) 0 web_state) ≡ true)
parsed_volumes_mount_example =
    parsed_volumes_mount library "state" "7" spec_system1 web_state (λ v. true) true 0 web_parsed

read-format_example : read_formatted (pv_json_format (65 ∷ 34 ∷ 10 ∷ [])) ≡ some (65 ∷ 34 ∷ 10 ∷ [])
read-format_example = read-format 65 (34 ∷ 10 ∷ []) (omega arith, (omega arith, (omega arith, tt)))

-- One signature, with a pattern that includes the container's run.json.
abbrev headers : Headers
headers = record {
  alg = "ES256";
  certs = true;
  include = some ("web/run.json" ∷ []);
  exclude = none;
}

abbrev signer : SigEnv
signer = record {
  fnmatch = λ pattern key leading. str_eq pattern key;
  dirname = λ s. s;
  parse_pvs =
      λ v. if str_eq v "pvs" then some (record { protected = "p"; signature = "s" }) else none;
  parse_protected = λ p. some headers;
  verify_sha256 = λ payload h sig. str_eq payload "{\"web/run.json\":{}}";
}

abbrev signed_items : List (String × String)
signed_items = ("web/run.json", "{}") ∷ ("_sigs/web.json", "pvs") ∷ []

strict_verifies_signed_example :
    pv_signature_verify signer sb_strict signed_items
    ≡ some (
        all
          (item_holds signer (pv_signature_parse_json signed_items))
          (pv_signature_parse_json signed_items)
        && all
            (is_covered signer (pv_signature_parse_json signed_items))
            (pv_signature_parse_json signed_items))
unfolding pv_signature_parse_json
strict_verifies_signed_example = strict_verifies_signed signer signed_items (refl, (refl, tt))
