-- ===== src/Signature/Filter.antt =====
-- What the filters of a signature select, as a test on each key, and the payload that follows.
use pantavisor.Prelude.{
  ◌≡◌, refl, ◌∙◌, String, Bool, true, false, not, ◌&&◌, ◌||◌, Option, none, some, List, [], ◌∷◌,
  map, any, if◌then◌else◌, arith,
}
use pantavisor.Signature.{
  Pair, Headers, SigEnv, filter_matches, include_pair, include_all, pv_signature_include_files,
  pv_signature_reset_included, pv_signature_filter_files, pair_text, more_files,
  pv_signature_get_json_files,
}

abbrev pub patterns : Option (List String) → List String
patterns none = []
patterns (some strs) = strs

abbrev pub matches_any : SigEnv → Option (List String) → String → Bool
matches_any env filter key = any (λ str. filter_matches env str key) (patterns filter)

-- A pair is in the payload: a pattern to include matches it, and none to exclude does.
abbrev pub selects : SigEnv → Headers → String → Bool
selects env h key = matches_any env h.include key && not (matches_any env h.exclude key)

abbrev pub mentions : SigEnv → Headers → String → Bool
mentions env h key = matches_any env h.include key || matches_any env h.exclude key

abbrev pub select_pair : SigEnv → Headers → Pair → Pair
select_pair env h p = record p {
  included = selects env h p.key;
  covered = p.covered || mentions env h p.key;
}

-- What a list of patterns does to one pair.
abbrev mark : SigEnv → Bool → List String → Pair → Pair
mark env include strs p =
    if any (λ str. filter_matches env str p.key) strs
    then record p { included = include; covered = true }
    else p

include_all-nil :
    (env : SigEnv) (include : Bool) (strs : List String) → include_all env include strs [] ≡ []
unfolding include_all
include_all-nil env include [] = refl
include_all-nil env include (str ∷ strs) = include_all-nil env include strs

include_all-cons :
    (env : SigEnv) (include : Bool) (strs : List String) (p : Pair) (ps : List Pair)
    → include_all env include strs (p ∷ ps)
      ≡ mark env include strs p ∷ include_all env include strs ps
unfolding include_all include_pair
include_all-cons env include [] p ps = refl
include_all-cons env include (str ∷ strs) p ps = ground (
  arith,
  include_all-cons env include strs (include_pair env include str p)
      (map (include_pair env include str) ps),
)

include_files-cons :
    (env : SigEnv) (filter : Option (List String)) (include : Bool) (p : Pair) (ps : List Pair)
    → pv_signature_include_files env filter include (p ∷ ps)
      ≡ mark env include (patterns filter) p ∷ pv_signature_include_files env filter include ps
unfolding pv_signature_include_files
include_files-cons env none include p ps = refl
include_files-cons env (some strs) include p ps = include_all-cons env include strs p ps

include_files-nil :
    (env : SigEnv) (filter : Option (List String)) (include : Bool)
    → pv_signature_include_files env filter include [] ≡ []
unfolding pv_signature_include_files
include_files-nil env none include = refl
include_files-nil env (some strs) include = include_all-nil env include strs

module _ (env : SigEnv) (h : Headers) where
  mark-select :
      (p : Pair)
      → mark env false
          (patterns h.exclude)
          (mark env true (patterns h.include) (record p { included = false }))
        ≡ select_pair env h p
  mark-select p = ground arith

  -- The two filters, one after the other on a list whose flags are reset, select a pair exactly
  -- when a pattern to include matches its key and no pattern to exclude does, and cover it when any
  -- of the two does.
  pub filter_files_select :
      (ps : List Pair)
      → pv_signature_filter_files env h (pv_signature_reset_included ps)
        ≡ map (select_pair env h) ps
  unfolding pv_signature_filter_files pv_signature_reset_included
  filter_files_select [] =
      ground (arith, include_files-nil env h.include true, include_files-nil env h.exclude false)
  filter_files_select (p ∷ ps) =
      let q = record p { included = false } in
      let rest = map (λ (p : Pair). record p { included = false }) ps in
      ground (
        arith,
        mark-select p,
        filter_files_select ps,
        include_files-cons env h.include true q rest,
        include_files-cons env h.exclude false (mark env true (patterns h.include) q)
            (pv_signature_include_files env h.include true rest),
      )

-- The same keys and values.
abbrev pub SameItems : List Pair → List Pair → Type 0
SameItems [] [] = Unit
SameItems [] (q ∷ qs) = ⊥
SameItems (p ∷ ps) [] = ⊥
SameItems (p ∷ ps) (q ∷ qs) = (p.key ≡ q.key) × (p.value ≡ q.value) × SameItems ps qs

pub SameItems-refl : (ps : List Pair) → SameItems ps ps
SameItems-refl [] = tt
SameItems-refl (p ∷ ps) = (refl, refl, SameItems-refl ps)

pub SameItems-trans : (ps qs rs : List Pair) → SameItems ps qs → SameItems qs rs → SameItems ps rs
SameItems-trans [] [] [] h k = tt
SameItems-trans [] [] (r ∷ rs) h k = elim k [ ]
SameItems-trans [] (q ∷ qs) rs h k = elim h [ ]
SameItems-trans (p ∷ ps) [] rs h k = elim h [ ]
SameItems-trans (p ∷ ps) (q ∷ qs) [] h k = elim k [ ]
SameItems-trans (p ∷ ps) (q ∷ qs) (r ∷ rs) h k =
    (h.0 ∙ k.0, h.1 ∙ k.1, SameItems-trans ps qs rs h.2 k.2)

module _ (env : SigEnv) (h : Headers) where
  pub map_select-SameItems : (ps : List Pair) → SameItems ps (map (select_pair env h) ps)
  map_select-SameItems [] = tt
  map_select-SameItems (p ∷ ps) = (refl, refl, map_select-SameItems ps)

  -- The payload of a signature with these headers.
  abbrev pub signed_payload : List Pair → String
  signed_payload ps = pv_signature_get_json_files (map (select_pair env h) ps)

  more_files-SameItems :
      (ps qs : List Pair)
      → SameItems ps qs
      → more_files (map (select_pair env h) ps) ≡ more_files (map (select_pair env h) qs)
  unfolding more_files pair_text
  more_files-SameItems [] [] s = refl
  more_files-SameItems [] (q ∷ qs) s = elim s [ ]
  more_files-SameItems (p ∷ ps) [] s = elim s [ ]
  more_files-SameItems (p ∷ ps) (q ∷ qs) s =
      ground (arith, s.0, s.1, more_files-SameItems ps qs s.2)

  pub payload-SameItems :
      (ps qs : List Pair) → SameItems ps qs → signed_payload ps ≡ signed_payload qs
  unfolding pv_signature_get_json_files pair_text
  payload-SameItems [] [] s = refl
  payload-SameItems [] (q ∷ qs) s = elim s [ ]
  payload-SameItems (p ∷ ps) [] s = elim s [ ]
  payload-SameItems (p ∷ ps) (q ∷ qs) s =
      ground (arith, s.0, s.1, more_files-SameItems ps qs s.2, payload-SameItems ps qs s.2)
