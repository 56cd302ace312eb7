-- ===== src/Signature/Checked.antt =====
-- signature.c: the loop over the signatures where the headers of each parse, without the case that is
-- undefined in the code.
use pantavisor.Prelude.{
  ◌≡◌, refl, Bool, true, false, ◌&&◌, none, some, List, [], ◌∷◌, is_some, if◌then◌else◌, arith, All,
  Option-cases, inl, inr,
}
use pantavisor.Signature.{
  Pair, Sig, SigEnv, known_alg, pv_signature_filter_files, pv_signature_reset_included,
  pv_signature_get_json_files, pv_signature_verify_pvs, pv_signature_verify_pairs,
}

-- The check of one signature, where its headers are taken not to verify if they do not parse.
unfoldable pub checked_pvs : SigEnv → Sig → List Pair → List Pair × Bool
checked_pvs env sig ps = elim (env.parse_protected sig.protected) [
  | none ↦ (ps, false)
  | some h ↦
      let filtered = pv_signature_filter_files env h (pv_signature_reset_included ps) in
      let payload = pv_signature_get_json_files filtered in
      if h.certs
      then (filtered, known_alg h.alg && env.verify_sha256 payload h sig)
      else (ps, false)
]

-- The loop over the pairs with that check.
unfoldable pub checked_pairs : SigEnv → List Pair → List Pair → List Pair × Bool
checked_pairs env [] ps = (ps, true)
checked_pairs env (p ∷ todo) ps = elim (env.parse_pvs p.value) [
  | none ↦ checked_pairs env todo ps
  | some sig ↦
      let (qs, ok) = checked_pvs env sig ps in
      elim ok [ true ↦ checked_pairs env todo qs | false ↦ (qs, false) ]
]

-- An item that is no signature, or whose headers parse.
abbrev pub headers_parse : SigEnv → Pair → Bool
headers_parse env p = elim (env.parse_pvs p.value) [
  | none ↦ true
  | some sig ↦ is_some (env.parse_protected sig.protected)
]

pvs_defined :
    (env : SigEnv) (sig : Sig) (ps : List Pair)
    → is_some (env.parse_protected sig.protected) ≡ true
    → pv_signature_verify_pvs env sig ps ≡ some (checked_pvs env sig ps)
unfolding pv_signature_verify_pvs checked_pvs
pvs_defined env sig ps h = elim (Option-cases (env.parse_protected sig.protected)) [
  | inl n ↦ ground (arith, h, n)
  | inr (hs, e) ↦ rw (e, pv_signature_verify_pvs, checked_pvs) refl
]

-- The loop is defined, and is the one above, when the headers of each signature parse.
pub pairs_defined :
    (env : SigEnv) (todo ps : List Pair)
    → All (λ p. headers_parse env p ≡ true) todo
    → pv_signature_verify_pairs env todo ps ≡ some (checked_pairs env todo ps)
unfolding pv_signature_verify_pairs checked_pairs
pairs_defined env [] ps h = refl
pairs_defined env (p ∷ todo) ps h = elim (Option-cases (env.parse_pvs p.value)) [
  | inl n ↦ ground (arith, n, pairs_defined env todo ps h.1)
  | inr (sig, e) ↦
      ground (
        arith,
        e,
        h.0,
        pvs_defined env sig ps,
        pairs_defined env todo (checked_pvs env sig ps).0 h.1,
      )
]
