-- ===== src/CloneSet/Creation/Rollback.antt =====
-- What announcing and taking back does to what is awaited.
use kruise.Prelude.{
  ◌≡◌, refl, ◌∙◌, String, str_eq, true, false, not, ◌&&◌, List, [], ◌∷◌, arith, if◌then◌else◌,
  Bool-cases, inl, inr,
}
use kruise.Prelude.Assoc.{Names, has}
use kruise.Util.Pods.{Pod}
use kruise.Expectations.Scale
use kruise.Expectations.Scale.{ScaleAction, expect_scale, observe_scale}
use kruise.Expectations.Scale.Pending.{pending, pending-expect_scale, pending-observe_scale}
use kruise.CloneSet.Writes.{Api, Written}
use kruise.CloneSet.Creation.{announce, rollback}
use kruise.CloneSet.Creation.Naming.{is_named, has_same}

module _ (api : Api) (key : String) where
  pub pending-announce :
      (ps : List Pod) (w : Written) (c a n : String)
      → pending (announce api key ps w).scale c a n ≡ (
          if str_eq key c && (str_eq Scale.create a && is_named n ps)
          then true
          else pending w.scale c a n)
  unfolding announce
  pending-announce [] w c a n = ground arith
  pending-announce (p ∷ ps) w c a n =
      pending-announce ps _ c a n
      ∙ ground (arith, pending-expect_scale w.scale key Scale.create p.name c a n)

  pub log-announce : (ps : List Pod) (w : Written) → (announce api key ps w).log ≡ w.log
  unfolding announce
  log-announce [] w = refl
  log-announce (p ∷ ps) w = log-announce ps _

  pub pending-rollback :
      (ps : List Pod) (success : Names) (w : Written) (c a n : String)
      → pending (rollback api key ps success w).scale c a n ≡ (
          if str_eq key c && (str_eq Scale.create a && (is_named n ps && not (has n success)))
          then false
          else pending w.scale c a n)
  unfolding rollback
  pending-rollback [] success w c a n = ground arith
  pending-rollback (p ∷ ps) success w c a n =
      pending-rollback ps success _ c a n ∙ elim (Bool-cases (has p.name success)) [
        | inl there ↦ rw there (ground (arith, has_same p.name n success, there))
        | inr failed ↦
            rw (failed, pending-observe_scale w.scale key Scale.create p.name c a n)
              (ground (arith, has_same p.name n success, failed))
      ]

  pub log-rollback :
      (ps : List Pod) (success : Names) (w : Written) → (rollback api key ps success w).log ≡ w.log
  unfolding rollback
  log-rollback [] success w = refl
  log-rollback (p ∷ ps) success w = log-rollback ps success _ ∙ ground arith
