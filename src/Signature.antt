-- ===== src/Signature.antt =====
-- signature.c: a revision's items, the signatures among them, and which items those cover. The JSON
-- library, `fnmatch`, `dirname`, the reading of a signature and its headers, and the check of a
-- signature over a payload are arguments. The headers are read with both of their filters: the code
-- uses a null pointer for headers that lack one.
pub mod Filter
pub mod Checked
pub mod Laws
use Prim.Native.String.{◌++◌ as str_append}
use pantavisor.Prelude.{
  ℕ, String, Bool, true, false, not, ◌&&◌, ◌||◌, Option, none, some, ◌>>=◌, List, [], ◌∷◌, map,
  str_eq, if◌then◌else◌,
}
use pantavisor.Str.{has_prefix, pv_str_startswith, pv_str_matches, pv_str_endswith}

-- `struct pv_signature_pair`
pub record Pair : Type 0 where
  pub key : String
  pub value : String
  pub included : Bool
  pub covered : Bool

-- `struct pv_signature_headers`, with the filters as the JSON library reads them: no value if a
-- filter is no JSON. `certs` is whether the certificates parse.
pub record Headers : Type 0 where
  pub alg : String
  pub certs : Bool
  pub include : Option (List String)
  pub exclude : Option (List String)

-- `struct pv_signature`
pub record Sig : Type 0 where
  pub protected : String
  pub signature : String

-- `fnmatch` is with FNM_PATHNAME; its flag is FNM_LEADING_DIR.
pub record SigEnv : Type 0 where
  pub fnmatch : String → String → Bool → Bool
  pub dirname : String → String
  pub parse_pvs : String → Option Sig
  pub parse_protected : String → Option Headers
  pub verify_sha256 : String → Headers → Sig → Bool

pub data SecurebootMode : Type 0 where
  sb_disabled sb_lenient sb_strict : SecurebootMode

-- Does a filter's pattern match a key?
unfoldable pub filter_matches : SigEnv → String → String → Bool
filter_matches env str key =
    if pv_str_matches "**" str
    then env.fnmatch "" key true
    else if pv_str_endswith "/**" str
    then env.fnmatch (env.dirname str) key true
    else env.fnmatch str key false

unfoldable pub include_pair : SigEnv → Bool → String → Pair → Pair
include_pair env include str p =
    if filter_matches env str p.key then record p { included = include; covered = true } else p

unfoldable pub include_all : SigEnv → Bool → List String → List Pair → List Pair
include_all env include [] ps = ps
include_all env include (str ∷ strs) ps =
    include_all env include strs (map (include_pair env include str) ps)

-- A filter that is no JSON, and an empty one, are logged and skipped.
unfoldable pub pv_signature_include_files :
    SigEnv → Option (List String) → Bool → List Pair → List Pair
pv_signature_include_files env none include ps = ps
pv_signature_include_files env (some strs) include ps = include_all env include strs ps

unfoldable pub pv_signature_reset_included : List Pair → List Pair
pv_signature_reset_included ps = map (λ (p : Pair). record p { included = false }) ps

unfoldable pub pv_signature_filter_files : SigEnv → Headers → List Pair → List Pair
unfolding pv_signature_include_files
pv_signature_filter_files env h ps =
    pv_signature_include_files env h.exclude false
      (pv_signature_include_files env h.include true ps)

-- The payload's text for one pair, up to its comma.
unfoldable pub pair_text : Pair → String
pair_text p = str_append "\"" (
    str_append p.key (
      if pv_str_startswith "{" p.value
      then str_append "\":" p.value
      else str_append "\":\"" (str_append p.value "\"")))

-- The text behind an item that is included: a comma, which the last one has replaced by `}`.
unfoldable pub more_files : List Pair → String
more_files [] = "}"
more_files (p ∷ ps) =
    let rest = more_files ps in
    if p.included then str_append "," (str_append (pair_text p) rest) else rest

unfoldable pub pv_signature_get_json_files : List Pair → String
pv_signature_get_json_files [] = "{}"
pv_signature_get_json_files (p ∷ ps) =
    let rest = pv_signature_get_json_files ps in
    if p.included then str_append "{" (str_append (pair_text p) (more_files ps)) else rest

unfoldable pub known_alg : String → Bool
known_alg alg = pv_str_matches alg "RS256" || pv_str_matches alg "ES256"

-- The pairs with their new flags, and the result. No value: where the headers do not parse, the list
-- of certificates is walked though nothing has made it a list.
unfoldable pub pv_signature_verify_pvs : SigEnv → Sig → List Pair → Option (List Pair × Bool)
pv_signature_verify_pvs env sig ps = elim (env.parse_protected sig.protected) [
  | none ↦ none
  | some h ↦
      let filtered = pv_signature_filter_files env h (pv_signature_reset_included ps) in
      let payload = pv_signature_get_json_files filtered in
      some (
        if h.certs
        then (filtered, known_alg h.alg && env.verify_sha256 payload h sig)
        else (ps, false))
]

-- The loop over the pairs: `todo` is what it has not reached, `ps` the whole list with its flags.
unfoldable pub pv_signature_verify_pairs :
    SigEnv → List Pair → List Pair → Option (List Pair × Bool)
pv_signature_verify_pairs env [] ps = some (ps, true)
pv_signature_verify_pairs env (p ∷ todo) ps = elim (env.parse_pvs p.value) [
  | none ↦ pv_signature_verify_pairs env todo ps
  | some sig ↦ pv_signature_verify_pvs env sig ps >>= (λ r. elim r.1 [
    | true ↦ pv_signature_verify_pairs env todo r.0
    | false ↦ some (r.0, false)
  ])
]

unfoldable pub pv_signature_all_covered : List Pair → Bool
pv_signature_all_covered [] = true
pv_signature_all_covered (p ∷ ps) =
    let rest = pv_signature_all_covered ps in
    if pv_str_startswith "_sigs/" p.key then rest else if p.covered then rest else false

-- `pv_signature_parse_json`: the items of the state, in order, neither included nor covered.
unfoldable pub pv_signature_parse_json : List (String × String) → List Pair
pv_signature_parse_json [] = []
pv_signature_parse_json ((key, value) ∷ items) =
    record { key = key; value = value; included = false; covered = false }
    ∷ pv_signature_parse_json items

unfoldable pub pv_signature_verify : SigEnv → SecurebootMode → List (String × String) → Option Bool
pv_signature_verify env sb_disabled items = some true
pv_signature_verify env sb_lenient items =
    let ps = pv_signature_parse_json items in
    pv_signature_verify_pairs env ps ps >>= (λ r. some r.1)
pv_signature_verify env sb_strict items =
    let ps = pv_signature_parse_json items in
    pv_signature_verify_pairs env ps ps
    >>= (λ r. some (if r.1 then pv_signature_all_covered r.0 else false))
