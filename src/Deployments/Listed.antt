-- ===== src/Deployments/Listed.antt =====
-- connectivity/check/deployment.go: whether `deploy` creates the deployments of `deploymentList`.
use cilium_cli.Prelude.{
  String, some, List, [], ◌∷◌, ◌++◌, map, All, Bool, true, false, not, ◌&&◌, ◌||◌, if◌then◌else◌,
  ◌≡◌, ◌⊎◌, inl, inr, refl,
}
use cilium_cli.Install.Objects.{Api, done}
use cilium_cli.Deployments.{
  Parameters, is_multi, Client, src_client, dst_client, World, at, cluster, ours, deploy, src_list,
  dst_list, perf_client, perf_server, perf_client_across,
}
use cilium_cli.Deployments.Kept.{Serving, HasAll}
use cilium_cli.Deployments.Made.{deploy-Gives}

-- the deployments that are waited for, each with the client that is asked for it
abbrev pub wanted : Parameters → List (Client × String)
wanted k = map (λ n. (src_client, n)) (src_list k) ++ map (λ n. (dst_client, n)) (dst_list k)

-- Either no node is without Cilium, or the tests are no performance tests and run on one cluster with
-- several nodes.
abbrev pub IsCovered : Parameters → Type 0
IsCovered k =
    (k.node_without_cilium ≡ false)
    ⊎ ((k.perf ≡ false) × (k.single_node ≡ false) × (is_multi k ≡ false))

module _ (P : Client × String → Type 0) (client_name server_name across_name : String) where
  abbrev made : Bool → Bool → Bool → Bool → List (Client × String)
  made perf single multi without =
      let perf_made = (src_client, server_name) ∷ (src_client, client_name) ∷ [] in
      let echo_made =
        (src_client, "client2") ∷ (src_client, "client") ∷ (src_client, "echo-same-node") ∷ [] in
      let with_other = (dst_client, "echo-other-node") ∷ echo_made in
      if perf
      then (if not single then (src_client, across_name) ∷ perf_made else perf_made)
      else if not single || multi
      then (if without then (src_client, "echo-external-node") ∷ with_other else with_other)
      else echo_made

  abbrev asked : Bool → Bool → Bool → Bool → List (Client × String)
  asked perf single multi without =
      map (λ n. (src_client, n))
        (if not perf
          then "client" ∷ "client2" ∷ "echo-same-node" ∷ []
          else client_name ∷ server_name ∷ (if single then [] else across_name ∷ []))
      ++ map (λ n. (dst_client, n))
          ((if (multi || not single) && not perf then "echo-other-node" ∷ [] else [])
            ++ (if without then "echo-external-node" ∷ [] else []))

  made-asked :
      (perf single multi without : Bool)
      → (without ≡ false) ⊎ ((perf ≡ false) × (single ≡ false) × (multi ≡ false))
      → (multi ≡ false
          → P (src_client, "echo-external-node")
          → P (dst_client, "echo-external-node"))
      → All P (made perf single multi without)
      → All P (asked perf single multi without)
  made-asked true true true false c same (s, (cl, _)) = (cl, (s, tt))
  made-asked true true false false c same (s, (cl, _)) = (cl, (s, tt))
  made-asked true false true false c same (a, (s, (cl, _))) = (cl, (s, (a, tt)))
  made-asked true false false false c same (a, (s, (cl, _))) = (cl, (s, (a, tt)))
  made-asked false true false false c same (c2, (c1, (e, _))) = (c1, (c2, (e, tt)))
  made-asked false true true false c same (o, (c2, (c1, (e, _)))) = (c1, (c2, (e, (o, tt))))
  made-asked false false true false c same (o, (c2, (c1, (e, _)))) = (c1, (c2, (e, (o, tt))))
  made-asked false false false false c same (o, (c2, (c1, (e, _)))) = (c1, (c2, (e, (o, tt))))
  made-asked false false false true c same (x, (o, (c2, (c1, (e, _))))) =
      (c1, (c2, (e, (o, (same refl x, tt)))))
  made-asked true single multi true c same h = absurd (elim c [ inl e ↦ cc | inr e ↦ cc (e.0) ])
  made-asked false true multi true c same h = absurd (elim c [ inl e ↦ cc | inr e ↦ cc (e.1) ])
  made-asked false false true true c same h = absurd (elim c [ inl e ↦ cc | inr e ↦ cc (e.2) ])

module _ (api : Api) (serving : Serving api) where
  one_cluster :
      (k : Parameters) (multi : Bool) (name : String) (w : World api k)
      → multi ≡ false
      → api.get (ours api k "Deployment" name) w.first ≡ done
      → api.get (ours api k "Deployment" name) (at api k (not multi) w) ≡ done
  one_cluster k true name w e h = absurd cc
  one_cluster k false name w e h = h

  -- Where what is created can be got and stays, and either no node is without Cilium or the tests are
  -- no performance tests and run on one cluster with several nodes: when `deploy` succeeds, each
  -- deployment that `deploymentList` gives for a client can be got from that client's cluster.
  pub deploy-HasAll :
      (k : Parameters) (w : World api k)
      → IsCovered k
      → (deploy api k w).1 ≡ some tt
      → HasAll api k (wanted k) (deploy api k w).0
  deploy-HasAll k w covered h =
      let w' : World api k = (deploy api k w).0 in
      made-asked (λ d. api.get (ours api k "Deployment" d.1) (cluster api k d.0 w') ≡ done)
        (perf_client k) (perf_server k) (perf_client_across k) k.perf k.single_node (is_multi k)
        k.node_without_cilium covered (one_cluster k (is_multi k) "echo-external-node" w')
        (deploy-Gives api serving k w tt tt h)
