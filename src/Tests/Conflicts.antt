-- ===== src/Tests/Conflicts.antt =====
-- A patch at a server that refuses writes with conflicts as often as it has refusals left.
use dynamic_device_scaler.Base.{
  ◌<◌, pos, List, [], ◌∷◌, length, ◌≡◌, refl, ◌⊎◌, inl, inr, bytes, arith,
}
use dynamic_device_scaler.Effects.{
  ApiError, conflict, Reply, done, refused, ok, Environment, NamesAgree,
}
use dynamic_device_scaler.Patch.{patch_composability_request_size}
use dynamic_device_scaler.Patch.Relents.{Relents, patch_composability_request_size_relents}
use dynamic_device_scaler.Tests.Cluster.{Cluster, at_noon, at_noon-NamesAgree}
use dynamic_device_scaler.Tests.Samples.{request_a, cluster}

abbrev answer : List ApiError → Cluster → Reply (Unit {0}) × Cluster
answer [] c = (done tt, c)
answer (e ∷ es) c = (refused conflict, record c { refusals = es })

abbrev conflicting : Environment
conflicting = record at_noon {
  get_request = λ name c. (done (record request_a { name = name }), c);
  submit = λ w c. answer c.refusals c;
}

conflicting-NamesAgree : NamesAgree conflicting
conflicting-NamesAgree = record {
  request_named = λ name c. refl;
  claim_named = at_noon-NamesAgree.claim_named;
}

answered :
    (refusals : List ApiError) (c : Cluster)
    → length c.refusals ≡ length refusals
    → ((answer refusals c).0 ≡ done tt)
      ⊎ (((answer refusals c).0 ≡ refused conflict)
          × (length (answer refusals c).1.refusals < length c.refusals))
answered [] c h = inl refl
answered (e ∷ es) c h = inr (refl, omega (arith, h))

conflicting-Relents : Relents conflicting (bytes "q") (pos 1) (λ c. length c.refusals)
conflicting-Relents = record {
  found = λ c. (record request_a { name = bytes "q" }, refl, omega arith);
  takes = λ c. answered c.refusals c refl;
}

-- The cluster has one refusal left.
patch_composability_request_size_relents_example :
    (patch_composability_request_size conflicting (bytes "q") (pos 1) cluster).result ≡ ok tt
patch_composability_request_size_relents_example =
    patch_composability_request_size_relents conflicting conflicting-NamesAgree (bytes "q") (pos 1)
      (λ c. length c.refusals) conflicting-Relents cluster (omega arith)
