-- ===== src/Parser.antt =====
-- parser/parser.c and parser/parser_system1.c: a revision's state from its json. The JSON library is an
-- argument, which reads an object's keys with the texts of their values, or an array's items, from
-- a text, or its tokens. An allocation succeeds.
pub mod RunJson
pub mod System
pub mod Link
pub mod Building
pub mod Actions
pub mod Fine
pub mod Laws
pub mod Started
use Prim.Native.Char.{Char, code}
use Prim.Native.String
use pantavisor.Prelude.{
  ℕ, String, Bool, true, false, not, ◌==◌, Option, none, some, List, [], ◌∷◌, str_eq, if◌then◌else◌,
}
use pantavisor.Str.{has_prefix}
use pantavisor.Json.{JsonTok}
use pantavisor.Platforms.{Platform}

-- `calloc` is the address of a new platform beside those there are.
pub record ParserEnv : Type 0 where
  pub tokens : String → List JsonTok
  pub object_keys : String → Option (List (String × String))
  pub array_items : String → Option (List String)
  pub calloc : List Platform → ℕ

-- `do_lookup_json_key`: the value of the first key that starts with the text.
unfoldable pub do_lookup_json_key : List (String × String) → String → Option String
do_lookup_json_key [] key = none
do_lookup_json_key ((curr_key, value) ∷ keys) key =
    let rest = do_lookup_json_key keys key in if has_prefix key curr_key then some value else rest
