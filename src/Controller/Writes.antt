-- ===== src/Controller/Writes.antt =====
-- Everything that a reconcile asks of the API server.
use dynamic_device_scaler.Base.{List, In, text_eq}
use dynamic_device_scaler.Types.{ComposableDraSpec, NodeInfo, ResourceClaimInfo, ResourceSliceInfo}
use dynamic_device_scaler.Kube.{Write}
use dynamic_device_scaler.Effects.{
  Program, Environment, NamesAgree, RangesOver, pure, wrap, ◌>>=◌, Ensures, Always, pure-Ensures,
  wrap-Ensures, >>=-Ensures,
}
use dynamic_device_scaler.Collect.Config.{get_config_map_info}
use dynamic_device_scaler.Collect.Claims.{get_resource_claim_info}
use dynamic_device_scaler.Collect.Slices.{get_resource_slice_info}
use dynamic_device_scaler.Collect.Nodes.{get_node_info}
use dynamic_device_scaler.Collect.Nodes.Sends.{get_node_info-Ensures}
use dynamic_device_scaler.Collect.Sends.{
  get_config_map_info-Ensures, get_resource_claim_info-Ensures, get_resource_slice_info-Ensures,
}
use dynamic_device_scaler.Controller.{Settings, Collected, collect_info}
use dynamic_device_scaler.Controller.Touches.{Touches}
use dynamic_device_scaler.Controller.Round.{NodeWrite, own_claims}

-- A write of a reconcile, which has collected this.
pub data ReconcileWrite (env : Environment) (w : Write) : Type 0 where
  touches : (c : Collected) → Touches c.slices c.spec.label_prefix w → ReconcileWrite env w
  handles :
      (c : Collected) (node : NodeInfo)
      → In node c.nodes
      → NodeWrite env node c.spec c.slices (own_claims node c.claims) w
      → ReconcileWrite env w

module _ (env : Environment) (named : NamesAgree env) (ranges : RangesOver env)
    (settings : Settings) where
  -- The rest of collectInfo behind the slices, the claims and the configuration.
  abbrev after_slices :
      ComposableDraSpec → List ResourceClaimInfo → List ResourceSliceInfo → Program env Collected
  after_slices spec claims slices =
      wrap "failed to get NodeInfo" (get_node_info env spec) >>= λ nodes.
      pure (record { claims = claims; slices = slices; nodes = nodes; spec = spec })

  abbrev after_claims : ComposableDraSpec → List ResourceClaimInfo → Program env Collected
  after_claims spec claims =
      wrap "failed to get ResourceSliceInfo" (get_resource_slice_info env)
      >>= after_slices spec claims

  abbrev after_spec : ComposableDraSpec → Program env Collected
  after_spec spec =
      wrap "failed to get ResourceClaimInfo" (get_resource_claim_info env spec)
      >>= after_claims spec

  -- What is known of the configuration is known of what is collected.
  pub collect_info_spec-Ensures :
      {P : Write → Type 0} (Q : ComposableDraSpec → Type 0)
      → Ensures P Q (get_config_map_info env)
      → Ensures P (λ c. Q c.spec) (collect_info env)
  unfolding collect_info
  collect_info_spec-Ensures Q known =
      >>=-Ensures {Q = Q}
        (wrap "failed to get ComposableDRASpec from ConfigMap" (get_config_map_info env)) after_spec
        (wrap-Ensures _ _ known)
        λ spec q.
          >>=-Ensures {Q = Always}
            (wrap "failed to get ResourceClaimInfo" (get_resource_claim_info env spec))
            (after_claims spec) (wrap-Ensures _ _ (get_resource_claim_info-Ensures env spec))
            λ claims _.
              >>=-Ensures {Q = Always}
                (wrap "failed to get ResourceSliceInfo" (get_resource_slice_info env))
                (after_slices spec claims) (wrap-Ensures _ _ (get_resource_slice_info-Ensures env))
                λ slices _.
                  >>=-Ensures {Q = Always} (wrap "failed to get NodeInfo" (get_node_info env spec))
                    (λ nodes.
                      pure
                        (record { claims = claims; slices = slices; nodes = nodes; spec = spec }))
                    (wrap-Ensures _ _ (get_node_info-Ensures env spec)) λ nodes _. pure-Ensures _ q

  pub collect_info-Ensures : {P : Write → Type 0} → Ensures P Always (collect_info env)
  collect_info-Ensures = collect_info_spec-Ensures Always (get_config_map_info-Ensures env)
