-- ===== src/Plugins/Targets.antt =====
-- Which version `UpdatePlugin` and a notification read and record for a slug.
use banyan_hub_sdk.Base.{
  if◌then◌else◌, string_eq, ◌==◌, String, ◌≡◌, refl, sym, ap, ◌∙◌, ◌≢◌, ◌⊎◌, inl, inr, true, some,
  List, [], ◌∷◌, arith,
}
use banyan_hub_sdk.Config.{
  UpdateStrategy, update_backend, update_frontend, other_strategy, ManagedComponent, Config,
}
use banyan_hub_sdk.Errors.{sentinel_eq}
use banyan_hub_sdk.Types.{state_eq}
use banyan_hub_sdk.Updater.{Target, own, managed}
use banyan_hub_sdk.Updater.Routing.{UpdateCall, call_backend, call_for, notify_managed}
use banyan_hub_sdk.Updater.Routing.Laws.{target_of}

pub target_of-call_for :
    (mc : ManagedComponent) (s : UpdateStrategy) → target_of (call_for mc s) ≡ managed mc.slug
unfolding call_for
target_of-call_for mc update_backend = refl
target_of-call_for mc update_frontend = refl
target_of-call_for mc (other_strategy n) = refl

-- A managed component has this slug.
abbrev pub HasComponent : String → List ManagedComponent → Type 0
HasComponent slug [] = ⊥
HasComponent slug (mc ∷ components) = (mc.slug ≡ slug) ⊎ HasComponent slug components

notified_component :
    (slug : String) (components : List ManagedComponent) (c : UpdateCall)
    → notify_managed true slug components ≡ some c
    → HasComponent slug components × (target_of c ≡ managed slug)
unfolding notify_managed
notified_component slug [] c h = absurd (ground arith)
notified_component slug (mc ∷ components) c h = elim (string_eq.dec mc.slug slug) [
  | yes same ↦
      let e : call_for mc mc.strategy ≡ c = ground (arith, same) in
      (inl same, ap target_of (sym e) ∙ target_of-call_for mc mc.strategy ∙ ap managed same)
  | no other ↦
      let (m, t) = notified_component slug components c (ground (arith, other)) in (inr m, t)
]

module _ (cfg : Config) where
  -- The version of the component that the slug names: the guard's own, or that of a managed one.
  abbrev pub IsTargetOf : String → Target → Type 0
  IsTargetOf slug t =
      ((slug ≡ cfg.component_slug) × (t ≡ own))
      ⊎ ((slug ≢ cfg.component_slug)
          × HasComponent slug cfg.managed_components
          × (t ≡ managed slug))

  pub own_or_managed :
      (slug : String) (c : UpdateCall)
      → (if slug == cfg.component_slug
          then some call_backend
          else notify_managed true slug cfg.managed_components)
        ≡ some c
      → IsTargetOf slug (target_of c)
  own_or_managed slug c h = elim (string_eq.dec slug cfg.component_slug) [
    | yes same ↦ let e : call_backend ≡ c = ground (arith, same) in inl (same, ap target_of (sym e))
    | no other ↦
        let (m, t) = notified_component slug cfg.managed_components c (ground (arith, other)) in
        inr (other, m, t)
  ]
