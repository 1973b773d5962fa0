-- ===== src/Controller/Plugins/Laws.antt =====
-- The plugins of others stay, and reconciling settles.
use cloudnative_supabase.Prelude.{
  ◌≡◌, refl, ◌∙◌, ◌==◌, true, false, none, some, List, [], ◌∷◌, ◌++◌, arith, if◌then◌else◌,
  Option-cases, Bool-cases, inl, inr,
}
use cloudnative_supabase.Kube.Cnpg.{PluginConfiguration}
use cloudnative_supabase.Controller.Semantic.{Semantic, IsSemantic}
use cloudnative_supabase.Controller.Plugins.{
  is_barman, barman_plugin, visit, walk, append_missing, reconcile_barman_plugin,
}

-- The plugins but for the Barman Cloud plugin, and those that the operator takes for it.
abbrev pub foreign : List PluginConfiguration → List PluginConfiguration
foreign [] = []
foreign (p ∷ ps) = if p.name == "barman-cloud.cloudnative-pg.io" then foreign ps else p ∷ foreign ps

abbrev pub barmans : List PluginConfiguration → List PluginConfiguration
barmans [] = []
barmans (p ∷ ps) = if is_barman p then p ∷ barmans ps else barmans ps

barman_plugin-is_barman :
    (plugins : List PluginConfiguration) (p : PluginConfiguration)
    → barman_plugin plugins ≡ some p
    → is_barman p ≡ true
unfolding barman_plugin
barman_plugin-is_barman [] p h = cc
barman_plugin-is_barman (q ∷ plugins) p h = ground (arith, barman_plugin-is_barman plugins p)

foreign-append :
    (ps : List PluginConfiguration) (p : PluginConfiguration)
    → is_barman p ≡ true
    → foreign (ps ++ p ∷ []) ≡ foreign ps
foreign-append [] p h = ground arith
foreign-append (q ∷ ps) p h = ground (arith, foreign-append ps p)

module _ (semantic : Semantic) where
  foreign-walk-none :
      (plugins : List PluginConfiguration)
      → foreign (walk semantic none plugins).result ≡ foreign plugins
  unfolding walk visit
  foreign-walk-none [] = refl
  foreign-walk-none (p ∷ plugins) = ground (arith, foreign-walk-none plugins)

  foreign-walk-some :
      (desired : PluginConfiguration) (plugins : List PluginConfiguration)
      → is_barman desired ≡ true
      → foreign (walk semantic (some desired) plugins).result ≡ foreign plugins
  unfolding walk visit
  foreign-walk-some desired [] h = refl
  foreign-walk-some desired (p ∷ plugins) h = ground (arith, foreign-walk-some desired plugins)

  -- The plugins of others stay as they are and in their order, whatever the desired ones are.
  pub foreign-reconcile_barman_plugin :
      (existing desired : List PluginConfiguration)
      → foreign (reconcile_barman_plugin semantic existing desired).0 ≡ foreign existing
  unfolding reconcile_barman_plugin append_missing
  foreign-reconcile_barman_plugin existing desired = elim (Option-cases (barman_plugin desired)) [
    | inl e ↦ rw (e, append_missing) (foreign-walk-none existing)
    | inr (p, e) ↦ elim (Bool-cases (walk semantic (some p) existing).found) [
      | inl f ↦
          rw (e, append_missing, f)
            (foreign-walk-some p existing (barman_plugin-is_barman desired p e))
      | inr f ↦
          rw (e, append_missing, f)
            (foreign-append (walk semantic (some p) existing).result p
                (barman_plugin-is_barman desired p e)
              ∙ foreign-walk-some p existing (barman_plugin-is_barman desired p e))
    ]
  ]

  walk-none_again :
      (plugins : List PluginConfiguration)
      → walk semantic none (walk semantic none plugins).result
        ≡ record { result = (walk semantic none plugins).result; found = false; changed = false }
  unfolding walk visit
  walk-none_again [] = refl
  walk-none_again (p ∷ plugins) = ground (arith, walk-none_again plugins)

  walk-some_again :
      (desired : PluginConfiguration) (plugins : List PluginConfiguration)
      → IsSemantic semantic
      → is_barman desired ≡ true
      → walk semantic (some desired) (walk semantic (some desired) plugins).result
        ≡ record (walk semantic (some desired) plugins) { changed = false }
  unfolding walk visit
  walk-some_again desired [] h b = refl
  walk-some_again desired (p ∷ plugins) h b =
      ground (arith, walk-some_again desired plugins h b, h.plugin-refl desired)

  walk_append :
      (desired : PluginConfiguration) (plugins : List PluginConfiguration)
      → IsSemantic semantic
      → is_barman desired ≡ true
      → (walk semantic (some desired) plugins).found ≡ false
      → walk semantic (some desired) ((walk semantic (some desired) plugins).result ++ desired ∷ [])
        ≡ record {
          result = (walk semantic (some desired) plugins).result ++ desired ∷ [];
          found = true;
          changed = false;
        }
  unfolding walk visit
  walk_append desired [] h b f = ground (arith, h.plugin-refl desired)
  walk_append desired (p ∷ plugins) h b f =
      ground (arith, walk_append desired plugins h b, h.plugin-refl desired)

  -- Reconciling the plugins again, with the result of the first time, changes nothing, if equality
  -- is reflexive.
  pub reconcile_barman_plugin_again :
      (existing desired : List PluginConfiguration)
      → IsSemantic semantic
      → reconcile_barman_plugin semantic
          (reconcile_barman_plugin semantic existing desired).0
          desired
        ≡ ((reconcile_barman_plugin semantic existing desired).0, false)
  unfolding reconcile_barman_plugin append_missing
  reconcile_barman_plugin_again existing desired h = elim (Option-cases (barman_plugin desired)) [
    | inl e ↦ rw (e, append_missing, walk-none_again existing) refl
    | inr (p, e) ↦ elim (Bool-cases (walk semantic (some p) existing).found) [
      | inl f ↦
          rw
            (
              e,
              append_missing,
              f,
              walk-some_again p existing h (barman_plugin-is_barman desired p e),
              f,
            )
            refl
      | inr f ↦
          rw
            (e, append_missing, f, walk_append p existing h (barman_plugin-is_barman desired p e) f)
            refl
    ]
  ]
