-- ===== src/State/Transfer.antt =====
-- `pv_state_transfer` of state.c: the running state takes over what a new revision brings, for an
-- update without reboot. No value: a pointer led to no platform of its state.
pub mod Pointers
use pantavisor.Prelude.{
  ℕ, String, Bool, true, false, Option, none, some, List, [], ◌∷◌, ◌++◌, is_some, if◌then◌else◌,
}
use pantavisor.Platforms.{Platform, is_started, pv_platform_get_by_name}
use pantavisor.State.{PvState, PvObject, PvJson, PvVolume, platform_at}

abbrev pub cons_some : {A : Type 0} → A → Option (List A) → Option (List A)
cons_some x none = none
cons_some x (some xs) = some (x ∷ xs)

-- One of the three first loops of `pv_state_remove_platforms`: items stay that are linked to no
-- platform or to a started one.
unfoldable pub remove_linked :
    {A : Type 0} → (A → Option ℕ) → List Platform → List A → Option (List A)
remove_linked plat ps [] = some []
remove_linked plat ps (x ∷ xs) =
    let rest = remove_linked plat ps xs in
    elim (plat x) [
      | none ↦ cons_some x rest
      | some a ↦ elim (platform_at ps a) [
        | none ↦ none
        | some p ↦ if is_started p.status then cons_some x rest else rest
      ]
    ]

-- The last loop: platforms stay that are started.
unfoldable pub remove_unstarted : List Platform → List Platform
remove_unstarted [] = []
remove_unstarted (p ∷ ps) =
    if is_started p.status then p ∷ remove_unstarted ps else remove_unstarted ps

-- The loops run in this order, so each reads the platforms before any is freed.
unfoldable pub pv_state_remove_platforms : PvState → Option PvState
pv_state_remove_platforms out =
    elim (remove_linked (λ (j : PvJson). j.plat) out.platforms out.jsons) [
      | none ↦ none
      | some jsons ↦ elim (remove_linked (λ (o : PvObject). o.plat) out.platforms out.objects) [
        | none ↦ none
        | some objects ↦ elim (remove_linked (λ (v : PvVolume). v.plat) out.platforms out.volumes) [
          | none ↦ none
          | some volumes ↦ some (record out {
            jsons = jsons;
            objects = objects;
            volumes = volumes;
            platforms = remove_unstarted out.platforms;
          })
        ]
      ]
    ]

-- What stays in the list, and what is moved out of it.
pub record Split (A : Type 0) : Type 0 where
  pub stay : List A
  pub moved : List A

abbrev pub stays : {A : Type 0} → A → Option (Split A) → Option (Split A)
stays x none = none
stays x (some r) = some (record { stay = x ∷ r.stay; moved = r.moved })

abbrev pub moves : {A : Type 0} → A → Option (Split A) → Option (Split A)
moves x none = none
moves x (some r) = some (record { stay = r.stay; moved = x ∷ r.moved })

-- One of the three first loops of `pv_state_transfer_platforms`: items are moved whose platform
-- has a name that `out` does not know.
unfoldable pub transfer_linked :
    {A : Type 0} → (A → Option ℕ) → List Platform → List Platform → List A → Option (Split A)
transfer_linked plat ins outs [] = some (record { stay = []; moved = [] })
transfer_linked plat ins outs (x ∷ xs) =
    let rest = transfer_linked plat ins outs xs in
    elim (plat x) [
      | none ↦ stays x rest
      | some a ↦ elim (platform_at ins a) [
        | none ↦ none
        | some p ↦
            if is_some (pv_platform_get_by_name outs p.name) then stays x rest else moves x rest
      ]
    ]

-- The last loop: a platform that is moved is at once one that `out` knows.
unfoldable pub transfer_platforms : List Platform → List Platform → List Platform × List Platform
transfer_platforms [] outs = ([], outs)
transfer_platforms (p ∷ ps) outs = elim (pv_platform_get_by_name outs p.name) [
  | some q ↦ let (stay, final) = transfer_platforms ps outs in (p ∷ stay, final)
  | none ↦ transfer_platforms ps (outs ++ p ∷ [])
]

-- The new `in` and the new `out`.
unfoldable pub pv_state_transfer_platforms : PvState → PvState → Option (PvState × PvState)
pv_state_transfer_platforms ins out =
    elim (transfer_linked (λ (j : PvJson). j.plat) ins.platforms out.platforms ins.jsons) [
      | none ↦ none
      | some js ↦
          elim (transfer_linked (λ (o : PvObject). o.plat) ins.platforms out.platforms
            ins.objects) [
              | none ↦ none
              | some os ↦
                  elim (transfer_linked (λ (v : PvVolume). v.plat) ins.platforms out.platforms
                    ins.volumes) [
                      | none ↦ none
                      | some vs ↦
                          let (stay, final) = transfer_platforms ins.platforms out.platforms in
                          some (
                            record ins {
                              jsons = js.stay;
                              objects = os.stay;
                              volumes = vs.stay;
                              platforms = stay;
                            },
                            record out {
                              jsons = out.jsons ++ js.moved;
                              objects = out.objects ++ os.moved;
                              volumes = out.volumes ++ vs.moved;
                              platforms = final;
                            },
                          )
                    ]
            ]
    ]

unfoldable pub pv_state_transfer : PvState → PvState → Option (PvState × PvState)
pv_state_transfer ins out = elim (pv_state_remove_platforms out) [
  | none ↦ none
  | some left ↦ elim (pv_state_transfer_platforms ins left) [
    | none ↦ none
    | some (ins', out') ↦ some (ins', record out' { rev = ins.rev })
  ]
]
