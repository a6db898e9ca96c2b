-- ===== src/Deployments/Made.antt =====
-- connectivity/check/deployment.go: the deployments that `deploy` has made where it succeeds.
use cilium_cli.Prelude.{String, List, [], ◌∷◌, Bool, true, false, not, ◌||◌, if◌then◌else◌}
use cilium_cli.Prelude.Acts.{Ensures, bind-Ensures, ◌>>◌}
use cilium_cli.Install.Objects.{Api}
use cilium_cli.Deployments.{
  Parameters, is_multi, Client, src_client, dst_client, Doing, ok, ours, namespace_object, ensure,
  ensure_deployment, when, delete_deployments, perf_client, perf_server, perf_client_across,
  check_nodes, deploy_perf, deploy_without_cilium, deploy_other_node, deploy_echo, deploy,
}
use cilium_cli.Deployments.Kept.{
  Serving, HasAll, if-Keeps, ok-Keeps, ensure-Keeps, Keeps-Adds, ensure_deployment-Adds,
}

module _ (api : Api) (serving : Serving api) (k : Parameters) where
  -- where the act succeeds on a world with the first deployments, the second ones are there
  abbrev Gives : List (Client × String) → List (Client × String) → Doing api k → Type 0
  Gives before after act = Ensures (HasAll api k before) act (HasAll api k after)

  then-Gives :
      (first second third : List (Client × String)) (m n : Doing api k)
      → Gives first second m
      → Gives second third n
      → Gives first third (m >> n)
  then-Gives first second third m n h h' =
      bind-Ensures (HasAll api k first) (HasAll api k second) (HasAll api k third) m (λ _. n) h
        (λ _. h')

  when-Gives :
      (b : Bool) (before after : List (Client × String)) (act : Doing api k)
      → Gives before after act
      → Gives before (if b then after else before) (when api k b act)
  when-Gives true before after act h w a all e = h w a all e
  when-Gives false before after act h w a all e = all

  anything : (act : Doing api k) → Gives [] [] act
  anything act w a all e = tt

  if-Gives :
      (b : Bool) (before after after' : List (Client × String)) (m n : Doing api k)
      → Gives before after m
      → Gives before after' n
      → Gives before (if b then after else after') (if b then m else n)
  if-Gives true before after after' m n h h' = h
  if-Gives false before after after' m n h h' = h'

  abbrev pub perf_made : List (Client × String)
  perf_made = (src_client, perf_server k) ∷ (src_client, perf_client k) ∷ []

  abbrev pub perf_all : List (Client × String)
  perf_all = if not k.single_node then (src_client, perf_client_across k) ∷ perf_made else perf_made

  deploy_perf-Gives : Gives [] perf_all (deploy_perf api k)
  unfolding deploy_perf
  deploy_perf-Gives =
      then-Gives [] [] perf_all (check_nodes api k) _ (anything (check_nodes api k)) (
        then-Gives [] ((src_client, perf_client k) ∷ []) perf_all
          (ensure_deployment api k src_client (perf_client k)) _
          (ensure_deployment-Adds api serving k src_client (perf_client k) [])
          (then-Gives ((src_client, perf_client k) ∷ []) perf_made perf_all
            (ensure_deployment api k src_client (perf_server k))
            (when api k (not k.single_node)
              (ensure_deployment api k src_client (perf_client_across k)))
            (ensure_deployment-Adds api serving k src_client (perf_server k)
              ((src_client, perf_client k) ∷ []))
            (when-Gives (not k.single_node) perf_made
              ((src_client, perf_client_across k) ∷ perf_made)
              (ensure_deployment api k src_client (perf_client_across k))
              (ensure_deployment-Adds api serving k src_client (perf_client_across k) perf_made))))

  abbrev pub echo_made : List (Client × String)
  echo_made = (src_client, "client2") ∷ (src_client, "client") ∷ (src_client, "echo-same-node") ∷ []

  abbrev pub with_other : List (Client × String)
  with_other = (dst_client, "echo-other-node") ∷ echo_made

  abbrev pub with_external : List (Client × String)
  with_external =
      if k.node_without_cilium then (src_client, "echo-external-node") ∷ with_other else with_other

  abbrev pub echo_all : List (Client × String)
  echo_all = if not k.single_node || is_multi k then with_external else echo_made

  deploy_without_cilium-Gives :
      Gives with_other
        ((src_client, "echo-external-node") ∷ with_other)
        (deploy_without_cilium api k)
  unfolding deploy_without_cilium
  deploy_without_cilium-Gives =
      then-Gives with_other with_other ((src_client, "echo-external-node") ∷ with_other)
        (ensure api k src_client (ours api k "DaemonSet" "host-netns"))
        (ensure_deployment api k src_client "echo-external-node")
        (Keeps-Adds api serving k (ensure api k src_client (ours api k "DaemonSet" "host-netns"))
          (ensure-Keeps api serving k src_client (ours api k "DaemonSet" "host-netns")) with_other)
        (ensure_deployment-Adds api serving k src_client "echo-external-node" with_other)

  deploy_other_node-Gives : Gives echo_made with_external (deploy_other_node api k)
  unfolding deploy_other_node
  deploy_other_node-Gives =
      then-Gives echo_made echo_made with_external
        (ensure api k dst_client (ours api k "Service" "echo-other-node")) _
        (Keeps-Adds api serving k (ensure api k dst_client (ours api k "Service" "echo-other-node"))
          (ensure-Keeps api serving k dst_client (ours api k "Service" "echo-other-node"))
          echo_made)
        (then-Gives echo_made with_other with_external
          (ensure_deployment api k dst_client "echo-other-node")
          (when api k k.node_without_cilium (deploy_without_cilium api k))
          (ensure_deployment-Adds api serving k dst_client "echo-other-node" echo_made)
          (when-Gives k.node_without_cilium with_other
            ((src_client, "echo-external-node") ∷ with_other) (deploy_without_cilium api k)
            deploy_without_cilium-Gives))

  ingress-Gives : Gives echo_all echo_all (
      when api k k.ingress_controller
        (ensure api k src_client (ours api k "Ingress" "ingress-service")))
  ingress-Gives =
      Keeps-Adds api serving k _
        (if-Keeps api serving k k.ingress_controller
          (ensure api k src_client (ours api k "Ingress" "ingress-service")) (ok api k)
          (ensure-Keeps api serving k src_client (ours api k "Ingress" "ingress-service"))
          (ok-Keeps api serving k))
        echo_all

  -- from the first deployment on
  deployments-Gives : Gives [] echo_all (
      ensure_deployment api k src_client "echo-same-node"
      >> (ensure_deployment api k src_client "client"
          >> (ensure_deployment api k src_client "client2"
              >> (when api k (not k.single_node || is_multi k) (deploy_other_node api k)
                  >> when api k k.ingress_controller
                      (ensure api k src_client (ours api k "Ingress" "ingress-service"))))))
  deployments-Gives =
      then-Gives [] ((src_client, "echo-same-node") ∷ []) echo_all
        (ensure_deployment api k src_client "echo-same-node") _
        (ensure_deployment-Adds api serving k src_client "echo-same-node" [])
        (then-Gives ((src_client, "echo-same-node") ∷ [])
          ((src_client, "client") ∷ (src_client, "echo-same-node") ∷ []) echo_all
          (ensure_deployment api k src_client "client") _
          (ensure_deployment-Adds api serving k src_client "client"
            ((src_client, "echo-same-node") ∷ []))
          (then-Gives ((src_client, "client") ∷ (src_client, "echo-same-node") ∷ []) echo_made
            echo_all (ensure_deployment api k src_client "client2") _
            (ensure_deployment-Adds api serving k src_client "client2"
              ((src_client, "client") ∷ (src_client, "echo-same-node") ∷ []))
            (then-Gives echo_made echo_all echo_all
              (when api k (not k.single_node || is_multi k) (deploy_other_node api k))
              (when api k k.ingress_controller
                (ensure api k src_client (ours api k "Ingress" "ingress-service")))
              (when-Gives (not k.single_node || is_multi k) echo_made with_external
                (deploy_other_node api k) deploy_other_node-Gives)
              ingress-Gives)))

  after :
      (final : List (Client × String)) (m n : Doing api k)
      → Gives [] final n
      → Gives [] final (m >> n)
  after final m n h = then-Gives [] [] final m n (anything m) h

  deploy_echo-Gives : Gives [] echo_all (deploy_echo api k)
  unfolding deploy_echo
  deploy_echo-Gives =
      after echo_all
        (when api k (is_multi k) (when api k k.force_deploy (delete_deployments api k dst_client)))
        _
        (after echo_all (when api k (is_multi k) (ensure api k dst_client (namespace_object api k)))
          _
          (after echo_all (ensure api k src_client (ours api k "Service" "echo-same-node")) _ (
            after echo_all
              (when api k (is_multi k)
                (ensure api k src_client (ours api k "Service" "echo-other-node")))
              _
              (after echo_all (ensure api k src_client (ours api k "ConfigMap" "coredns-configmap"))
                _
                (after echo_all
                  (when api k (is_multi k)
                    (ensure api k dst_client (ours api k "ConfigMap" "coredns-configmap")))
                  _ deployments-Gives)))))

  pub deploy-Gives : Gives [] (if k.perf then perf_all else echo_all) (deploy api k)
  unfolding deploy
  deploy-Gives =
      let final = if k.perf then perf_all else echo_all in
      after final (when api k k.force_deploy (delete_deployments api k src_client)) _ (
        after final (ensure api k src_client (namespace_object api k))
          (if k.perf then deploy_perf api k else deploy_echo api k)
          (if-Gives k.perf [] perf_all echo_all (deploy_perf api k) (deploy_echo api k)
            deploy_perf-Gives deploy_echo-Gives))
