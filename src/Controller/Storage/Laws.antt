-- ===== src/Controller/Storage/Laws.antt =====
-- Storage grows or stays, and reconciling it settles.
use cloudnative_supabase.Prelude.{
  ◌≡◌, ◌≢◌, refl, ◌∙◌, ap, subst, String, ==_refl, eq_iff, Bool, false, Result, ok, err,
  Result-cases, inl, inr, arith, bind_ok,
}
use cloudnative_supabase.Kube.Cnpg.{StorageConfiguration}
use cloudnative_supabase.Controller.Semantic.{Semantic, IsSemantic, replace, replace_set_again}
use cloudnative_supabase.Controller.Storage.{
  Quantities, check_shrink, reconcile_size, settle, reconcile_storage,
}

module _ {Quantity : Type 0} (quantities : Quantities Quantity) where
  -- `q.Cmp(q)` is 0.
  abbrev pub Irreflexive : Type 0
  Irreflexive = (q : Quantity) → quantities.is_less q q ≡ false

  -- A size that was stored is not below the one before.
  reconcile_size-grows :
      (existing desired size : String) (changed : Bool) (before after : Quantity)
      → Irreflexive
      → reconcile_size quantities existing desired ≡ ok (size, changed)
      → quantities.parse_quantity existing ≡ ok before
      → quantities.parse_quantity size ≡ ok after
      → existing ≢ ""
      → quantities.is_less after before ≡ false
  unfolding reconcile_size check_shrink replace
  reconcile_size-grows existing desired size changed before after irreflexive h b a set =
      elim (Result-cases (quantities.parse_quantity desired)) [
        | inl (q, e) ↦ ground (
          arith,
          irreflexive before,
          eq_iff existing desired,
          eq_iff existing "",
          eq_iff desired "",
        )
        | inr (x, e) ↦
            ground (arith, irreflexive before, eq_iff existing desired, eq_iff existing "")
      ]

  reconcile_size_again :
      (existing desired size : String) (changed : Bool)
      → Irreflexive
      → reconcile_size quantities existing desired ≡ ok (size, changed)
      → reconcile_size quantities size desired ≡ ok (size, false)
  unfolding reconcile_size check_shrink replace
  reconcile_size_again existing desired size changed irreflexive h =
      elim (Result-cases (quantities.parse_quantity desired)) [
        | inl (q, e) ↦
            ground
              (arith, irreflexive q, eq_iff existing desired, ==_refl desired, eq_iff size desired)
        | inr (x, e) ↦ ground (arith, eq_iff existing desired, ==_refl desired, eq_iff size desired)
      ]

  module _ (semantic : Semantic) where
    settle_again :
        (existing desired : StorageConfiguration) (size : String × Bool)
        → IsSemantic semantic
        → settle semantic (settle semantic existing desired size).0 desired (size.0, false)
          ≡ ((settle semantic existing desired size).0, false)
    unfolding settle
    settle_again existing desired size is_semantic =
        rw
          (
            replace_set_again semantic.text is_semantic.text-refl existing.storage_class
                desired.storage_class,
            replace_set_again semantic.flag is_semantic.flag-refl existing.resize_in_use_volumes
                desired.resize_in_use_volumes,
            replace_set_again semantic.text is_semantic.text-refl
                existing.persistent_volume_claim_template desired.persistent_volume_claim_template,
          )
          refl

    -- The storage of a result.
    abbrev stored :
        Result (StorageConfiguration × Bool) → StorageConfiguration → StorageConfiguration
    stored (ok s) other = s.0
    stored (err _) other = other

    -- The size of the storage that reconciliation stores is never below the size that was there, if
    -- there was one, the two are written as quantities, and no quantity is below itself.
    pub reconcile_storage-grows :
        (existing desired storage : StorageConfiguration) (changed : Bool) (before after : Quantity)
        → Irreflexive
        → reconcile_storage semantic quantities existing desired ≡ ok (storage, changed)
        → existing.size ≢ ""
        → quantities.parse_quantity existing.size ≡ ok before
        → quantities.parse_quantity storage.size ≡ ok after
        → quantities.is_less after before ≡ false
    unfolding reconcile_storage settle
    reconcile_storage-grows existing desired storage changed before after irreflexive h set b a =
        bind_ok (reconcile_size quantities existing.size desired.size) _ h λ size e g.
          reconcile_size-grows existing.size desired.size size.0 size.1 before after irreflexive e b
            (ap (λ r. quantities.parse_quantity (stored r existing).size) g ∙ a) set

    -- Reconciling the storage again, with what the first time stored, changes nothing, if equality is
    -- reflexive and no quantity is below itself.
    pub reconcile_storage_again :
        (existing desired storage : StorageConfiguration) (changed : Bool)
        → IsSemantic semantic
        → Irreflexive
        → reconcile_storage semantic quantities existing desired ≡ ok (storage, changed)
        → reconcile_storage semantic quantities storage desired ≡ ok (storage, false)
    unfolding reconcile_storage reconcile_size settle
    reconcile_storage_again existing desired storage changed is_semantic irreflexive h =
        bind_ok (reconcile_size quantities existing.size desired.size)
          (λ size. ok (settle semantic existing desired size)) h
          λ size e g.
            subst (λ s. reconcile_storage semantic quantities s desired ≡ ok (s, false))
              (ap (λ r. stored r existing) g)
              (rw (reconcile_size_again existing.size desired.size size.0 size.1 irreflexive e)
                (ap ok (settle_again existing desired size is_semantic)))
