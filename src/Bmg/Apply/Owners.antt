-- ===== src/Bmg/Apply/Owners.antt =====
-- The metadata of the objects that are applied.
use backup_maker_controller.Prelude.{
  suc, subst, sym, ap, ◌≡◌, refl, arith, List, [], ◌∷◌, All, length, Res, ok, err, panic,
}
use backup_maker_controller.Kube.{
  OwnerReference, TypeMeta, Unstructured, Metadata, missing, mapping, not_a_mapping, meta_of,
}
use backup_maker_controller.Domain.Aggregate.{
  Renderable, get_object_for_owner_reference, get_scheduled_backup,
}
use backup_maker_controller.Bmg.Apply.{prepare, cons_res, prepared_then, prepare_all}

-- The reference to the resource that owns the objects.
abbrev pub owner_of : Renderable → OwnerReference
owner_of backup =
    let (t, m) = get_object_for_owner_reference backup in
    record { api_version = t.api_version; kind = t.kind; name = m.name; uid = m.uid }

-- The object belongs to the owner alone, and stands in the namespace of the backup.
pub record IsOwned (backup : Renderable) (doc : Unstructured) : Type 0 where
  pub owned : (meta_of doc.metadata).owner_references ≡ owner_of backup ∷ []
  pub placed : (meta_of doc.metadata).namespace ≡ (get_scheduled_backup backup).meta.namespace

prepare-IsOwned :
    (backup : Renderable) (doc : Unstructured) (m : Metadata) (d : Unstructured)
    → doc.metadata ≡ m
    → prepare backup doc ≡ ok d
    → IsOwned backup d × (d.type_meta ≡ doc.type_meta)
unfolding prepare meta_of
prepare-IsOwned backup doc missing d e h = ground arith
prepare-IsOwned backup doc (mapping m) d e h = ground arith
prepare-IsOwned backup doc not_a_mapping d e h = ground arith

objects_of : Res (List Unstructured) → List Unstructured
objects_of (ok ds) = ds
objects_of (err e) = []
objects_of panic = []

cons_res-AreOwned :
    (backup : Renderable) (d : Unstructured) (docs : List Unstructured)
    (r : Res (List Unstructured)) (ds : List Unstructured)
    → IsOwned backup d
    → ((ds' : List Unstructured)
        → r ≡ ok ds'
        → All (IsOwned backup) ds' × (length ds' ≡ length docs))
    → prepared_then (ok d) r ≡ ok ds
    → All (IsOwned backup) ds × (length ds ≡ suc (length docs))
unfolding prepared_then cons_res objects_of
cons_res-AreOwned backup d docs (ok ds') ds one rest h =
    let (owned, n) = rest ds' refl in
    subst (λ xs. All (IsOwned backup) xs × (length xs ≡ suc (length docs))) (ap objects_of h)
      ((one, owned), ap suc n)
cons_res-AreOwned backup d docs (err e) ds one rest h = ground arith
cons_res-AreOwned backup d docs panic ds one rest h = ground arith

prepared_then-AreOwned :
    (backup : Renderable) (doc : Unstructured) (docs : List Unstructured) (p : Res Unstructured)
    (ds : List Unstructured)
    → prepare backup doc ≡ p
    → ((ds' : List Unstructured)
        → prepare_all backup docs ≡ ok ds'
        → All (IsOwned backup) ds' × (length ds' ≡ length docs))
    → prepared_then p (prepare_all backup docs) ≡ ok ds
    → All (IsOwned backup) ds × (length ds ≡ suc (length docs))
unfolding prepared_then
prepared_then-AreOwned backup doc docs (ok d) ds e rest h =
    cons_res-AreOwned backup d docs (prepare_all backup docs) ds
      (prepare-IsOwned backup doc doc.metadata d refl e).0 rest h
prepared_then-AreOwned backup doc docs (err x) ds e rest h = ground arith
prepared_then-AreOwned backup doc docs panic ds e rest h = ground arith

-- The first loop of `ApplyObjects`: where it does not panic, it keeps the number of the objects, and
-- every object stands in the namespace of the backup and has one owner reference, to the resource that
-- the objects are rendered for.
pub prepare_all-AreOwned :
    (backup : Renderable) (docs ds : List Unstructured)
    → prepare_all backup docs ≡ ok ds
    → All (IsOwned backup) ds × (length ds ≡ length docs)
unfolding prepare_all
prepare_all-AreOwned backup [] [] h = (tt, refl)
prepare_all-AreOwned backup [] (d ∷ ds) h = ground arith
prepare_all-AreOwned backup (doc ∷ docs) ds h =
    prepared_then-AreOwned backup doc docs (prepare backup doc) ds refl
      (λ ds' e. prepare_all-AreOwned backup docs ds' e) h

-- The objects keep their types.
module _ (P : TypeMeta → Type 0) where
  cons_res-types :
      (d : Unstructured) (r : Res (List Unstructured)) (ds : List Unstructured)
      → P d.type_meta
      → ((ds' : List Unstructured) → r ≡ ok ds' → All (λ (doc : Unstructured). P doc.type_meta) ds')
      → prepared_then (ok d) r ≡ ok ds
      → All (λ (doc : Unstructured). P doc.type_meta) ds
  unfolding prepared_then cons_res objects_of
  cons_res-types d (ok ds') ds one rest h =
      subst (All (λ (doc : Unstructured). P doc.type_meta)) (ap objects_of h) (one, rest ds' refl)
  cons_res-types d (err e) ds one rest h = ground arith
  cons_res-types d panic ds one rest h = ground arith

  prepared_then-types :
      (backup : Renderable) (doc : Unstructured) (docs : List Unstructured) (p : Res Unstructured)
      (ds : List Unstructured)
      → prepare backup doc ≡ p
      → P doc.type_meta
      → ((ds' : List Unstructured)
          → prepare_all backup docs ≡ ok ds'
          → All (λ (doc : Unstructured). P doc.type_meta) ds')
      → prepared_then p (prepare_all backup docs) ≡ ok ds
      → All (λ (doc : Unstructured). P doc.type_meta) ds
  unfolding prepared_then
  prepared_then-types backup doc docs (ok d) ds e one rest h =
      cons_res-types d (prepare_all backup docs) ds
        (subst P (sym (prepare-IsOwned backup doc doc.metadata d refl e).1) one) rest h
  prepared_then-types backup doc docs (err x) ds e one rest h = ground arith
  prepared_then-types backup doc docs panic ds e one rest h = ground arith

  pub prepare_all-types :
      (backup : Renderable) (docs ds : List Unstructured)
      → All (λ (doc : Unstructured). P doc.type_meta) docs
      → prepare_all backup docs ≡ ok ds
      → All (λ (doc : Unstructured). P doc.type_meta) ds
  unfolding prepare_all objects_of
  prepare_all-types backup [] ds are h =
      subst (All (λ (doc : Unstructured). P doc.type_meta)) (ap objects_of h) tt
  prepare_all-types backup (doc ∷ docs) ds (is, are) h =
      prepared_then-types backup doc docs (prepare backup doc) ds refl is
        (λ ds' e. prepare_all-types backup docs ds' are e) h
