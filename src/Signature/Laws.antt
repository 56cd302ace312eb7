-- ===== src/Signature/Laws.antt =====
-- What `pv_signature_verify` decides, against a check of each signature on the items as they came.
use pantavisor.Prelude.{
  ◌≡◌, refl, sym, ap, ◌∙◌, String, Bool, true, false, ◌&&◌, ◌||◌, none, some, ◌>>=◌, if◌then◌else◌,
  All, List, [], ◌∷◌, map, any, all, arith, Bool-cases, Option-cases, inl, inr, false≢true,
}
use pantavisor.Str.{pv_str_startswith}
use pantavisor.Signature.{
  Pair, Headers, Sig, SigEnv, sb_lenient, sb_strict, known_alg, pv_signature_all_covered,
  pv_signature_parse_json, pv_signature_verify,
}
use pantavisor.Signature.Checked.{checked_pvs, checked_pairs, headers_parse, pairs_defined}
use pantavisor.Signature.Filter.{
  mentions, select_pair, filter_files_select, SameItems, SameItems-refl, SameItems-trans,
  map_select-SameItems, signed_payload, payload-SameItems,
}

-- A signature is good for the items: its headers parse, its certificates too, its algorithm is
-- known and it matches the payload that its filters select.
abbrev pub sig_holds : SigEnv → List Pair → Sig → Bool
sig_holds env ps sig = elim (env.parse_protected sig.protected) [
  | none ↦ false
  | some h ↦ h.certs && (known_alg h.alg && env.verify_sha256 (signed_payload env h ps) h sig)
]

-- An item that is no signature passes.
abbrev pub item_holds : SigEnv → List Pair → Pair → Bool
item_holds env ps p = elim (env.parse_pvs p.value) [ none ↦ true | some sig ↦ sig_holds env ps sig ]

-- The item is a signature one of whose patterns matches the key.
abbrev pub item_mentions : SigEnv → String → Pair → Bool
item_mentions env key p = elim (env.parse_pvs p.value) [
  | none ↦ false
  | some sig ↦ elim (env.parse_protected sig.protected) [
    | none ↦ false
    | some h ↦ mentions env h key
  ]
]

abbrev pub is_covered : SigEnv → List Pair → Pair → Bool
is_covered env ps p = pv_str_startswith "_sigs/" p.key || any (λ t. item_mentions env p.key t) ps

abbrev covering : SigEnv → List Pair → Pair → String × Bool
covering env todo p = (p.key, p.covered || any (λ t. item_mentions env p.key t) todo)

abbrev flag : Pair → String × Bool
flag p = (p.key, p.covered)

module _ (env : SigEnv) where
  holds-SameItems :
      (sig : Sig) (ps qs : List Pair)
      → SameItems ps qs
      → sig_holds env ps sig ≡ sig_holds env qs sig
  holds-SameItems sig ps qs s = elim (Option-cases (env.parse_protected sig.protected)) [
    | inl n ↦ ground (arith, n)
    | inr (h, e) ↦ ground (arith, e, payload-SameItems env h ps qs s)
  ]

  verify_pvs-result :
      (sig : Sig) (ps : List Pair) → (checked_pvs env sig ps).1 ≡ sig_holds env ps sig
  unfolding checked_pvs
  verify_pvs-result sig ps = elim (Option-cases (env.parse_protected sig.protected)) [
    | inl n ↦ ground (arith, n)
    | inr (h, e) ↦ ground (arith, e, filter_files_select env h ps)
  ]

  verify_pvs-SameItems : (sig : Sig) (ps : List Pair) → SameItems ps (checked_pvs env sig ps).0
  unfolding checked_pvs
  verify_pvs-SameItems sig ps = elim (Option-cases (env.parse_protected sig.protected)) [
    | inl n ↦ ground (arith, n, SameItems-refl ps)
    | inr (h, e) ↦
        ground
          (arith, e, filter_files_select env h ps, SameItems-refl ps, map_select-SameItems env h ps)
  ]

  -- The result of the loop: is each signature that it reaches good?
  verify_pairs-result :
      (todo ps items : List Pair)
      → SameItems items ps
      → (checked_pairs env todo ps).1 ≡ all (item_holds env items) todo
  unfolding checked_pairs
  verify_pairs-result [] ps items s = refl
  verify_pairs-result (p ∷ todo) ps items s = elim (Option-cases (env.parse_pvs p.value)) [
    | inl n ↦ ground (arith, n, verify_pairs-result todo ps items s)
    | inr (sig, e) ↦
        let v = checked_pvs env sig ps in
        ground (
          arith,
          e,
          verify_pvs-result sig ps,
          holds-SameItems sig items ps s,
          verify_pairs-result todo v.0 items
              (SameItems-trans items ps v.0 s (verify_pvs-SameItems sig ps)),
        )
  ]

  covering_select :
      (h : Headers) (sig : Sig) (p : Pair) (todo ps : List Pair)
      → env.parse_pvs p.value ≡ some sig
      → env.parse_protected sig.protected ≡ some h
      → map (covering env todo) (map (select_pair env h) ps) ≡ map (covering env (p ∷ todo)) ps
  covering_select h sig p todo [] e k = refl
  covering_select h sig p todo (q ∷ ps) e k =
      ground (arith, e, k, covering_select h sig p todo ps e k)

  covering_skip :
      (p : Pair) (todo ps : List Pair)
      → env.parse_pvs p.value ≡ none
      → map (covering env todo) ps ≡ map (covering env (p ∷ todo)) ps
  covering_skip p todo [] n = refl
  covering_skip p todo (q ∷ ps) n = ground (arith, n, covering_skip p todo ps n)

  covering_nil : (ps : List Pair) → map flag ps ≡ map (covering env []) ps
  covering_nil [] = refl
  covering_nil (p ∷ ps) = ground (arith, covering_nil ps)

  -- The flags of a `verify_pvs` that succeeds, as a later signature of the loop finds them.
  verify_pvs-flags :
      (sig : Sig) (p : Pair) (todo ps : List Pair)
      → env.parse_pvs p.value ≡ some sig
      → (checked_pvs env sig ps).1 ≡ true
      → map (covering env todo) (checked_pvs env sig ps).0 ≡ map (covering env (p ∷ todo)) ps
  unfolding checked_pvs
  verify_pvs-flags sig p todo ps e t = elim (Option-cases (env.parse_protected sig.protected)) [
    | inl n ↦ ground (arith, n, t)
    | inr (h, k) ↦
        ground (arith, k, t, filter_files_select env h ps, covering_select h sig p todo ps e k)
  ]

  pairs_nil : (ps : List Pair) → (checked_pairs env [] ps).0 ≡ ps
  unfolding checked_pairs
  pairs_nil ps = refl

  pairs_skip :
      (p : Pair) (todo ps : List Pair)
      → env.parse_pvs p.value ≡ none
      → checked_pairs env (p ∷ todo) ps ≡ checked_pairs env todo ps
  unfolding checked_pairs
  pairs_skip p todo ps n = ground (arith, n)

  pairs_step :
      (p : Pair) (sig : Sig) (todo ps : List Pair)
      → env.parse_pvs p.value ≡ some sig
      → (checked_pvs env sig ps).1 ≡ true
      → checked_pairs env (p ∷ todo) ps ≡ checked_pairs env todo (checked_pvs env sig ps).0
  unfolding checked_pairs
  pairs_step p sig todo ps e y = ground (arith, e, y)

  pairs_stop :
      (p : Pair) (sig : Sig) (todo ps : List Pair)
      → env.parse_pvs p.value ≡ some sig
      → (checked_pvs env sig ps).1 ≡ false
      → (checked_pairs env (p ∷ todo) ps).1 ≡ false
  unfolding checked_pairs
  pairs_stop p sig todo ps e n = ground (arith, e, n)

  -- A loop that succeeds leaves an item covered exactly when it was before, or a signature on the
  -- way mentions it.
  verify_pairs-flags :
      (todo ps : List Pair)
      → (checked_pairs env todo ps).1 ≡ true
      → map flag (checked_pairs env todo ps).0 ≡ map (covering env todo) ps
  verify_pairs-flags [] ps t = ap (map flag) (pairs_nil ps) ∙ covering_nil ps
  verify_pairs-flags (p ∷ todo) ps t = elim (Option-cases (env.parse_pvs p.value)) [
    | inl n ↦
        let skip = pairs_skip p todo ps n in
        ap (λ r. map flag r.0) skip
        ∙ verify_pairs-flags todo ps (sym (ap (λ r. r.1) skip) ∙ t)
        ∙ covering_skip p todo ps n
    | inr (sig, e) ↦ elim (Bool-cases (checked_pvs env sig ps).1) [
      | inl y ↦
          let step = pairs_step p sig todo ps e y in
          ap (λ r. map flag r.0) step
          ∙ verify_pairs-flags todo (checked_pvs env sig ps).0 (sym (ap (λ r. r.1) step) ∙ t)
          ∙ verify_pvs-flags sig p todo ps e y
      | inr n ↦ absurd (false≢true (sym (pairs_stop p sig todo ps e n) ∙ t))
    ]
  ]

  all_covered-flags :
      (ps : List Pair)
      → pv_signature_all_covered ps
        ≡ all (λ (f : String × Bool). pv_str_startswith "_sigs/" f.0 || f.1) (map flag ps)
  unfolding pv_signature_all_covered
  all_covered-flags [] = refl
  all_covered-flags (p ∷ ps) = ground (arith, all_covered-flags ps)

  covering-items :
      (todo : List Pair) (items : List (String × String))
      → all
          (λ (f : String × Bool). pv_str_startswith "_sigs/" f.0 || f.1)
          (map (covering env todo) (pv_signature_parse_json items))
        ≡ all (is_covered env todo) (pv_signature_parse_json items)
  unfolding pv_signature_parse_json
  covering-items todo [] = refl
  covering-items todo ((key, value) ∷ items) = ground (arith, covering-items todo items)

  checked_strict :
      (items : List (String × String))
      → (let r =
            checked_pairs env (pv_signature_parse_json items) (pv_signature_parse_json items) in
          if r.1 then pv_signature_all_covered r.0 else false)
        ≡ (all (item_holds env (pv_signature_parse_json items)) (pv_signature_parse_json items)
            && all (is_covered env (pv_signature_parse_json items)) (pv_signature_parse_json items))
  checked_strict items =
      let ps = pv_signature_parse_json items in
      let r = checked_pairs env ps ps in
      elim (Bool-cases r.1) [
        | inl y ↦ ground (
          arith,
          y,
          verify_pairs-result ps ps ps (SameItems-refl ps),
          verify_pairs-flags ps ps y,
          all_covered-flags r.0,
          covering-items ps items,
        )
        | inr n ↦ ground (arith, n, verify_pairs-result ps ps ps (SameItems-refl ps))
      ]

  -- When the headers of every signature among the items parse: in strict mode the result is defined,
  -- and the items verify exactly when every signature is good for the items as they came, and every
  -- item whose key does not start with `_sigs/` is matched by a pattern, to include or to exclude, of
  -- one of the signatures.
  pub strict_verifies_signed :
      (items : List (String × String))
      → All (λ p. headers_parse env p ≡ true) (pv_signature_parse_json items)
      → pv_signature_verify env sb_strict items
        ≡ some (
            all (item_holds env (pv_signature_parse_json items)) (pv_signature_parse_json items)
            && all (is_covered env (pv_signature_parse_json items)) (pv_signature_parse_json items))
  unfolding pv_signature_verify
  strict_verifies_signed items h =
      let ps = pv_signature_parse_json items in
      ap
        (λ o. o >>= (λ (r : List Pair × Bool).
          some (if r.1 then pv_signature_all_covered r.0 else false)))
        (pairs_defined env ps ps h)
      ∙ ap some (checked_strict items)

  -- In lenient mode only the signatures count.
  lenient_verifies_unsigned :
      (items : List (String × String))
      → All (λ p. headers_parse env p ≡ true) (pv_signature_parse_json items)
      → pv_signature_verify env sb_lenient items
        ≡ some
            (all (item_holds env (pv_signature_parse_json items)) (pv_signature_parse_json items))
  unfolding pv_signature_verify
  lenient_verifies_unsigned items h =
      let ps = pv_signature_parse_json items in
      ap (λ o. o >>= (λ (r : List Pair × Bool). some r.1)) (pairs_defined env ps ps h)
      ∙ ap some (verify_pairs-result ps ps ps (SameItems-refl ps))
