-- ===== src/Install/Traced.antt =====
-- install/install.go: an object stays as it was, or the installer created it and pushed the step that
-- deletes it, over the requests that the installation is made of.
use cilium_cli.Prelude.{
  Option, none, some, List, [], ◌∷◌, All, true, false, ◌==◌, string_eq, ◌≡◌, ◌≢◌, refl, sym, ◌∙◌,
  ◌⊎◌, inl, inr, Bool-cases, subst,
}
use cilium_cli.Prelude.Acts.{Kept}
use cilium_cli.Install.Objects.{
  Object, object_eq, contains, Api, Lawful, Reply, done, not_found, already_exists, failed,
}
use cilium_cli.Install.Manifests.{Named}
use cilium_cli.Install.Steps.{
  Variable, Step, delete_object, delete_held, Installer, Doing, push_rollback_step, push_if_done,
  create_and_push, if_done, request, or_update, create_or_update_and_push, each_held, and_continue,
  assign,
}

module _ (api : Api) (law : Lawful api) (s0 : api.State) (p : Object) where
  -- the step leaves the object alone, or there was none
  abbrev pub Unharmed : Step → Type 0
  Unharmed (delete_object o) =
      (api.read s0 p ≡ none) ⊎ (((o == p) ≡ false) × (contains o p ≡ false))
  Unharmed (delete_held v) = Unit

  -- one of the steps deletes the object
  abbrev pub Undone : List Step → Type 0
  Undone [] = ⊥
  Undone (delete_object o ∷ steps) = (o ≡ p) ⊎ Undone steps
  Undone (delete_held v ∷ steps) = Undone steps

  -- a request to create the object gets no answer
  abbrev pub IsLost : Type 0
  IsLost = (s : api.State) × (api.unanswered p s ≡ true)

  abbrev pub TracedIn : api.State → List Step → Type 0
  TracedIn s steps =
      ((api.read s p ≡ api.read s0 p) × All Unharmed steps)
      ⊎ ((api.read s0 p ≡ none) × Undone steps)
      ⊎ IsLost

  abbrev pub Traced : Installer api → Type 0
  Traced k = TracedIn k.cluster k.rollback_steps

  pub unchanged :
      (s s' : api.State) (steps : List Step)
      → api.read s' p ≡ api.read s p
      → TracedIn s steps
      → TracedIn s' steps
  unchanged s s' steps e (inl (same, spared)) = inl (e ∙ same, spared)
  unchanged s s' steps e (inr undone) = inr undone

  Undone-push : (step : Step) (steps : List Step) → Undone steps → Undone (step ∷ steps)
  Undone-push (delete_object o) steps h = inr h
  Undone-push (delete_held v) steps h = h

  pub pushed :
      (s : api.State) (step : Step) (steps : List Step)
      → Unharmed step
      → TracedIn s steps
      → TracedIn s (step ∷ steps)
  pushed s step steps h (inl (same, spared)) = inl (same, (h, spared))
  pushed s step steps h (inr (inl (absent, undone))) =
      inr (inl (absent, Undone-push step steps undone))
  pushed s step steps h (inr (inr lost)) = inr (inr lost)

  -- an object other than `p` that is created, and deleted by the step
  other_created :
      (o : Object) (s : api.State) (steps : List Step)
      → (o == p) ≡ false
      → (api.create o s).1 ≡ done
      → TracedIn s steps
      → TracedIn (api.create o s).0 (delete_object o ∷ steps)
  other_created o s steps other succeeded (inr (inl (absent, undone))) =
      inr (inl (absent, inr undone))
  other_created o s steps other succeeded (inr (inr lost)) = inr (inr lost)
  other_created o s steps other succeeded (inl (same, spared)) = inl (
    law.create_others o p s other ∙ same,
    (
      elim (Bool-cases (contains o p)) [
        | inr outside ↦ inr (other, outside)
        | inl inside ↦
            inl (sym same ∙ law.needs_namespace o p s inside (law.create_was_absent o s succeeded))
      ],
      spared,
    ),
  )

  itself_created :
      (o : Object) (s : api.State) (steps : List Step)
      → o ≡ p
      → (api.create o s).1 ≡ done
      → TracedIn s steps
      → TracedIn (api.create o s).0 (delete_object o ∷ steps)
  itself_created o s steps itself succeeded (inr (inl (absent, undone))) =
      inr (inl (absent, inl itself))
  itself_created o s steps itself succeeded (inr (inr lost)) = inr (inr lost)
  itself_created o s steps itself succeeded (inl (same, spared)) = inr (
      inl (
        sym same ∙ subst (λ q. api.read s q ≡ none) itself (law.create_was_absent o s succeeded),
        inl itself,
      ))

  refused :
      (o : Object) (s : api.State) (steps : List Step)
      → (api.create o s).1 ≢ done
      → TracedIn s steps
      → TracedIn (api.create o s).0 steps
  refused o s steps h t = elim (Bool-cases (o == p)) [
    | inr other ↦ unchanged s (api.create o s).0 steps (law.create_others o p s other) t
    | inl itself ↦
        let e : o ≡ p = (object_eq.same_iff o p).0 itself in
        elim (Bool-cases (api.unanswered o s)) [
          | inl lost ↦ inr (inr (s, subst (λ q. api.unanswered q s ≡ true) e lost))
          | inr answered ↦
              unchanged s (api.create o s).0 steps
                (subst (λ q. api.read (api.create o s).0 q ≡ api.read s q) e
                  (law.create_refused o s h answered))
                t
        ]
  ]

  created :
      (o : Object) (s : api.State) (steps : List Step)
      → (api.create o s).1 ≡ done
      → TracedIn s steps
      → TracedIn (api.create o s).0 (delete_object o ∷ steps)
  created o s steps h t = elim (Bool-cases (o == p)) [
    | inr other ↦ other_created o s steps other h t
    | inl itself ↦ itself_created o s steps ((object_eq.same_iff o p).0 itself) h t
  ]

  push_if_done-Traced :
      (k : Installer api) (step : Step) (x : api.State × Reply)
      → (x.1 ≡ done → TracedIn x.0 (step ∷ k.rollback_steps))
      → (x.1 ≢ done → TracedIn x.0 k.rollback_steps)
      → Traced (push_if_done api step k x).0
  unfolding push_rollback_step
  push_if_done-Traced k step (s, done) f g = f refl
  push_if_done-Traced k step (s, not_found) f g = g (λ e. cc)
  push_if_done-Traced k step (s, already_exists) f g = g (λ e. cc)
  push_if_done-Traced k step (s, failed) f g = g (λ e. cc)

  -- an object is created, and the step deletes what was created
  pub create_and_push-Traced : (o : Object) → Kept Traced (create_and_push api o (delete_object o))
  unfolding create_and_push
  create_and_push-Traced o k t =
      push_if_done-Traced k (delete_object o) (api.create o k.cluster)
        (λ h. created o k.cluster k.rollback_steps h t)
        (λ h. refused o k.cluster k.rollback_steps h t)

  -- an object other than `p` is created, and the step does not harm `p`
  pub create_other-Traced :
      (o : Object) (step : Step)
      → (o == p) ≡ false
      → Unharmed step
      → Kept Traced (create_and_push api o step)
  unfolding create_and_push
  create_other-Traced o step other h k t =
      let t' =
        unchanged k.cluster (api.create o k.cluster).0 k.rollback_steps
          (law.create_others o p k.cluster other) t in
      push_if_done-Traced k step (api.create o k.cluster)
        (λ _. pushed (api.create o k.cluster).0 step k.rollback_steps h t') (λ _. t')

  if_done-Traced :
      (k : Installer api) (x : api.State × Reply)
      → TracedIn x.0 k.rollback_steps
      → Traced (if_done api k x).0
  if_done-Traced k (s, done) t = t
  if_done-Traced k (s, not_found) t = t
  if_done-Traced k (s, already_exists) t = t
  if_done-Traced k (s, failed) t = t

  pub request-Traced :
      (operation : Object → api.State → api.State × Reply) (o : Object)
      → ((s : api.State) → api.read (operation o s).0 p ≡ api.read s p)
      → Kept Traced (request api operation o)
  unfolding request
  request-Traced operation o h k t =
      if_done-Traced k (operation o k.cluster)
        (unchanged k.cluster (operation o k.cluster).0 k.rollback_steps (h k.cluster) t)

  or_update-Traced :
      (o : Object) (step : Step) (k : Installer api) (x : api.State × Reply)
      → (o == p) ≡ false
      → Unharmed step
      → TracedIn x.0 k.rollback_steps
      → Traced (or_update api o step k x).0
  or_update-Traced o step k (s, done) other h t =
      push_if_done-Traced k step (s, done) (λ _. pushed s step k.rollback_steps h t) (λ _. t)
  or_update-Traced o step k (s, already_exists) other h t =
      let t' = unchanged s (api.update o s).0 k.rollback_steps (law.update_others o p s other) t in
      push_if_done-Traced k step (api.update o s)
        (λ _. pushed (api.update o s).0 step k.rollback_steps h t') (λ _. t')
  or_update-Traced o step k (s, not_found) other h t =
      push_if_done-Traced k step (s, not_found) (λ _. pushed s step k.rollback_steps h t) (λ _. t)
  or_update-Traced o step k (s, failed) other h t =
      push_if_done-Traced k step (s, failed) (λ _. pushed s step k.rollback_steps h t) (λ _. t)

  pub create_or_update-Traced :
      (o : Object) (step : Step)
      → (o == p) ≡ false
      → Unharmed step
      → Kept Traced (create_or_update_and_push api o step)
  unfolding create_or_update_and_push
  create_or_update-Traced o step other h k t =
      or_update-Traced o step k (api.create o k.cluster) other h (
        unchanged k.cluster (api.create o k.cluster).0 k.rollback_steps
          (law.create_others o p k.cluster other) t)

  and_continue-Traced :
      (x : Installer api × Option (Unit {0})) (rest : Doing api)
      → Traced x.0
      → Kept Traced rest
      → Traced (and_continue api x rest).0
  and_continue-Traced (k, none) rest t h = t
  and_continue-Traced (k, some tt) rest t h = h k t

  pub each_held-Traced :
      (v : Variable) (round : Named → Doing api) (names : List Named)
      → ((named : Named) → Kept Traced (round named))
      → Kept Traced (each_held api v round names)
  unfolding each_held
  each_held-Traced v round [] h k t = t
  each_held-Traced v round (named ∷ names) h k t =
      and_continue-Traced (round named (assign api v named k)) (each_held api v round names)
        (h named (assign api v named k) t) (each_held-Traced v round names h)
