-- ===== src/Deployments/Kept.antt =====
-- connectivity/check/deployment.go: no creation takes a deployment away, and `ensure_deployment` adds one.
use cilium_cli.Prelude.{
  String, none, some, List, [], ◌∷◌, ◌++◌, All, Bool, true, false, if◌then◌else◌, ◌≡◌, refl, sym,
  subst,
}
use cilium_cli.Prelude.Acts.{Ensures, bind-Ensures, Kept, bind-Kept, ◌>>◌}
use cilium_cli.Install.Objects.{Object, Api, Reply, done, not_found, already_exists, failed}
use cilium_cli.Deployments.{
  Parameters, Client, World, Doing, ok, reaches_first, cluster, at, put, succeeds, create, ours,
  is_done, unless_there, ensure, ensure_deployment, check_nodes,
}

-- What Kubernetes promises: what is created can be got, and no creation takes anything away.
pub record Serving (api : Api) : Type 0 where
  pub create_then_get :
      (o : Object) (s : api.State) → (api.create o s).1 ≡ done → api.get o (api.create o s).0 ≡ done
  pub create_keeps :
      (o p : Object) (s : api.State) → api.get p s ≡ done → api.get p (api.create o s).0 ≡ done

-- the deployments of the list can be got from the clusters that the clients reach
abbrev pub HasAll : (api : Api) (k : Parameters) → List (Client × String) → World api k → Type 0
HasAll api k deployments w =
    All (λ d. api.get (ours api k "Deployment" d.1) (cluster api k d.0 w) ≡ done) deployments

module _ (api : Api) (serving : Serving api) (k : Parameters) where
  -- the act takes no deployment away
  abbrev pub Keeps : Doing api k → Type 0
  Keeps act =
      (client : Client) (o : Object) → Kept (λ w. api.get o (cluster api k client w) ≡ done) act

  put-here : (b : Bool) (s : api.State) (w : World api k) → at api k b (put api k b s w) ≡ s
  put-here true s w = refl
  put-here false s w = refl

  put-keeps :
      (b b' : Bool) (o p : Object) (w : World api k)
      → api.get p (at api k b' w) ≡ done
      → api.get p (at api k b' (put api k b (api.create o (at api k b w)).0 w)) ≡ done
  put-keeps true true o p w h = serving.create_keeps o p w.first h
  put-keeps false false o p w h = serving.create_keeps o p w.second h
  put-keeps true false o p w h = h
  put-keeps false true o p w h = h

  create-Keeps : (client : Client) (o : Object) → Keeps (create api k client o)
  create-Keeps client o client' p w h =
      put-keeps (reaches_first api k client) (reaches_first api k client') o p w h

  pub if-Keeps :
      (b : Bool) (m n : Doing api k) → Keeps m → Keeps n → Keeps (λ w. if b then m w else n w)
  if-Keeps true m n h h' = h
  if-Keeps false m n h h' = h'

  pub ok-Keeps : Keeps (ok api k)
  ok-Keeps client o w h = h

  then-Keeps : (m n : Doing api k) → Keeps m → Keeps n → Keeps (m >> n)
  then-Keeps m n h h' client o =
      bind-Kept (λ w. api.get o (cluster api k client w) ≡ done) m (λ _. n) (h client o)
        (λ _. h' client o)

  unless_there-Keeps :
      (client : Client) (o : Object) (act : Doing api k)
      → Keeps act
      → Keeps (unless_there api k client o act)
  unless_there-Keeps client o act h client' o' w =
      if-Keeps (is_done api k (api.get o (cluster api k client w))) (ok api k) act ok-Keeps h
        client' o' w

  pub ensure-Keeps : (client : Client) (o : Object) → Keeps (ensure api k client o)
  unfolding ensure
  ensure-Keeps client o =
      unless_there-Keeps client o (create api k client o) (create-Keeps client o)

  abbrev two : Client → String → Doing api k
  two client name =
      create api k client (ours api k "ServiceAccount" name)
      >> create api k client (ours api k "Deployment" name)

  ensure_deployment-Keeps :
      (client : Client) (name : String) → Keeps (ensure_deployment api k client name)
  unfolding ensure_deployment
  ensure_deployment-Keeps client name =
      unless_there-Keeps client (ours api k "Deployment" name) (two client name) (
        then-Keeps (create api k client (ours api k "ServiceAccount" name))
          (create api k client (ours api k "Deployment" name))
          (create-Keeps client (ours api k "ServiceAccount" name))
          (create-Keeps client (ours api k "Deployment" name)))

  check_nodes-Keeps : Keeps (check_nodes api k)
  check_nodes-Keeps =
      if-Keeps k.nodes_listed (ok api k) (λ w. (w, none)) ok-Keeps (λ client o w h. h)

  -- where the act succeeds, the deployments of the list are there as well
  abbrev pub Adds : List (Client × String) → Doing api k → Type 0
  Adds added act =
      (before : List (Client × String))
      → Ensures (HasAll api k before) act (HasAll api k (added ++ before))

  kept_all :
      (act : Doing api k)
      → Keeps act
      → (before : List (Client × String)) (w : World api k) → HasAll api k before w
      → HasAll api k before (act w).0
  kept_all act h [] w all = tt
  kept_all act h (d ∷ before) w (there, all) =
      (h d.0 (ours api k "Deployment" d.1) w there, kept_all act h before w all)

  pub Keeps-Adds : (act : Doing api k) → Keeps act → Adds [] act
  Keeps-Adds act h before w a all e = kept_all act h before w all

  succeeded : (reply : Reply) (a : Unit {0}) → succeeds api k reply ≡ some a → reply ≡ done
  succeeded done a e = refl
  succeeded not_found a e = absurd cc
  succeeded already_exists a e = absurd cc
  succeeded failed a e = absurd cc

  created :
      (client : Client) (o : Object) (w : World api k) (a : Unit {0})
      → (create api k client o w).1 ≡ some a
      → api.get o (cluster api k client (create api k client o w).0) ≡ done
  created client o w a e =
      let b = reaches_first api k client in
      let x = api.create o (at api k b w) in
      subst (λ s. api.get o s ≡ done) (sym (put-here b x.0 w))
        (serving.create_then_get o (at api k b w) (succeeded x.1 a e))

  found : (reply : Reply) → is_done api k reply ≡ true → reply ≡ done
  found done e = refl
  found not_found e = absurd cc
  found already_exists e = absurd cc
  found failed e = absurd cc

  unless_there-gets :
      (b : Bool) (client : Client) (o : Object) (act : Doing api k) (w : World api k) (a : Unit {0})
      → is_done api k (api.get o (cluster api k client w)) ≡ b
      → ((act w).1 ≡ some a → api.get o (cluster api k client (act w).0) ≡ done)
      → (if b then ok api k w else act w).1 ≡ some a
      → api.get o (cluster api k client (if b then ok api k w else act w).0) ≡ done
  unless_there-gets true client o act w a e h s = found (api.get o (cluster api k client w)) e
  unless_there-gets false client o act w a e h s = h s

  two-gets :
      (client : Client) (name : String) (w : World api k) (a : Unit {0})
      → (two client name w).1 ≡ some a
      → api.get (ours api k "Deployment" name) (cluster api k client (two client name w).0) ≡ done
  two-gets client name w a e =
      bind-Ensures (λ _. Unit {0}) (λ _. Unit {0})
        (λ w'. api.get (ours api k "Deployment" name) (cluster api k client w') ≡ done)
        (create api k client (ours api k "ServiceAccount" name))
        (λ _. create api k client (ours api k "Deployment" name)) (λ w' a' p s. tt)
        (λ _ w' a' p s. created client (ours api k "Deployment" name) w' a' s) w a tt e

  pub ensure_deployment-Adds :
      (client : Client) (name : String)
      → Adds ((client, name) ∷ []) (ensure_deployment api k client name)
  unfolding ensure_deployment
  ensure_deployment-Adds client name before w a all e = (
    unless_there-gets
        (is_done api k (api.get (ours api k "Deployment" name) (cluster api k client w))) client
        (ours api k "Deployment" name) (two client name) w a refl (two-gets client name w a) e,
    kept_all (ensure_deployment api k client name) (ensure_deployment-Keeps client name) before w
        all,
  )
