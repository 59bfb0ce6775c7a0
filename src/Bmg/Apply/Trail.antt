-- ===== src/Bmg/Apply/Trail.antt =====
-- Which references a backup has after its objects were applied.
use backup_maker_controller.Prelude.{
  ℕ, zero, suc, ◌≡◌, refl, sym, subst, ap, ◌∙◌, arith, String, ◌<>◌, bind_res, wrap_res, List, [],
  ◌∷◌, ◌++◌, map, length, Res, ok, err, panic,
}
use backup_maker_controller.Kube.{Unstructured}
use backup_maker_controller.Libs.{Libs}
use backup_maker_controller.Cluster.{Cluster}
use backup_maker_controller.Workspace.{Workspace}
use backup_maker_controller.Api.ChildReference.{
  ChildReference, ChildrenReferences, append_job_id_to, add_owned_object,
}
use backup_maker_controller.Api.ChildReference.RoundTrip.{label-append_job_id_to}
use backup_maker_controller.Domain.Aggregate.{
  Renderable, scheduled_one, requested_one, add_owned, get_references_of_owned_objects,
}
use backup_maker_controller.Bmg.State.{Context, change_backup}
use backup_maker_controller.Bmg.Apply.{apply_one, apply_each, create_or_update}
use backup_maker_controller.Bmg.Apply.Single.{create_or_update_frame}

-- The identifiers that are drawn next.
abbrev pub drawn : (W : Workspace) → ℕ → W.State → List String
drawn W zero d = []
drawn W (suc n) d = let (id, d') = W.new_uuid d in id ∷ drawn W n d'

pub length-drawn : (W : Workspace) (n : ℕ) (d : W.State) → length (drawn W n d) ≡ n
length-drawn W zero d = refl
length-drawn W (suc n) d = ap suc (length-drawn W n (W.new_uuid d).1)

-- The reference to an object under an identifier.
abbrev pub ref_of : Libs → String → Unstructured → ChildReference
ref_of L id doc =
    let gvk = L.group_version_kind doc.type_meta in
    record { api_version = gvk.group <> ("/" <> gvk.version); kind = gvk.kind; tracking_id = id }

abbrev pub refs_of : Libs → List String → List Unstructured → ChildrenReferences
refs_of L ids [] = []
refs_of L [] (doc ∷ docs) = []
refs_of L (id ∷ ids) (doc ∷ docs) = ref_of L id doc ∷ refs_of L ids docs

-- The identifiers of references.
abbrev pub tracking_ids : ChildrenReferences → List String
tracking_ids refs = map (λ (ref : ChildReference). ref.tracking_id) refs

pub tracking_ids-refs_of :
    (L : Libs) (W : Workspace) (docs : List Unstructured) (d : W.State)
    → tracking_ids (refs_of L (drawn W (length docs) d) docs) ≡ drawn W (length docs) d
tracking_ids-refs_of L W [] d = refl
tracking_ids-refs_of L W (doc ∷ docs) d =
    let (id, d') = W.new_uuid d in ap (λ ids. id ∷ ids) (tracking_ids-refs_of L W docs d')

append-nil : {A : Type 0} (xs : List A) → xs ++ [] ≡ xs
append-nil [] = refl
append-nil (x ∷ xs) = ap (λ ys. x ∷ ys) (append-nil xs)

append-snoc : {A : Type 0} (xs : List A) (x : A) (ys : List A) → (xs ++ x ∷ []) ++ ys ≡ xs ++ x ∷ ys
append-snoc [] x ys = refl
append-snoc (z ∷ xs) x ys = ap (λ zs. z ∷ zs) (append-snoc xs x ys)

module _ (L : Libs) where
  ref-add_owned_object :
      (before : ChildrenReferences) (id : String) (doc : Unstructured)
      → add_owned_object L before (append_job_id_to id doc) ≡ before ++ ref_of L id doc ∷ []
  unfolding add_owned_object append_job_id_to
  ref-add_owned_object before id doc = ground (arith, label-append_job_id_to id doc)

  refs-add_owned :
      (b : Renderable) (id : String) (doc : Unstructured)
      → get_references_of_owned_objects (add_owned L b (append_job_id_to id doc))
        ≡ get_references_of_owned_objects b ++ ref_of L id doc ∷ []
  unfolding add_owned get_references_of_owned_objects
  refs-add_owned (scheduled_one sb) id doc = ref-add_owned_object _ id doc
  refs-add_owned (requested_one a) id doc = ref-add_owned_object _ id doc

  module _ (C : Cluster) (W : Workspace) where
    -- After a call without an error, the backup has these references more.
    abbrev pub Adds :
        ChildrenReferences → ChildrenReferences → Res (Unit {0}) × Context C W → Type 0
    Adds before added (ok _, t) = get_references_of_owned_objects t.backup ≡ before ++ added
    Adds before added (err e, t) = Unit
    Adds before added (panic, t) = Unit

    abbrev HasDisk : W.State → Res (Unit {0}) × Context C W → Type 0
    HasDisk d (ok _, t) = t.disk ≡ d
    HasDisk d (err e, t) = Unit
    HasDisk d (panic, t) = Unit

    recorded_after :
        (id : String) (doc : Unstructured) (r : Res (Unit {0})) (t : Context C W)
        (before : ChildrenReferences) (d : W.State)
        → get_references_of_owned_objects t.backup ≡ before
        → t.disk ≡ d
        → let end =
            bind_res
              (wrap_res r "cannot apply manifest to the cluster", t)
              (λ _. change_backup (λ b. add_owned L b (append_job_id_to id doc))) in
          Adds before (ref_of L id doc ∷ []) end × HasDisk d end
    recorded_after id doc (ok _) t before d h same =
        (refs-add_owned t.backup id doc ∙ ap (λ refs. refs ++ ref_of L id doc ∷ []) h, same)
    recorded_after id doc (err e) t before d h same = (tt, tt)
    recorded_after id doc panic t before d h same = (tt, tt)

    Adds-apply_one :
        (doc : Unstructured) (s : Context C W)
        → let (id, d) = W.new_uuid s.disk in
          let end = apply_one L C W doc s in
          Adds (get_references_of_owned_objects s.backup) (ref_of L id doc ∷ []) end × HasDisk d end
    unfolding apply_one
    Adds-apply_one doc s =
        let (id, d) = W.new_uuid s.disk in
        let s' = record s { disk = d } in
        let (r, t) = create_or_update L C (append_job_id_to id doc) s' in
        let (backup, disk) = create_or_update_frame L C (append_job_id_to id doc) s' in
        recorded_after id doc r t (get_references_of_owned_objects s.backup) d
          (ap get_references_of_owned_objects backup) disk

    Adds-cons :
        (before : ChildrenReferences) (ref : ChildReference) (added : ChildrenReferences)
        (end : Res (Unit {0}) × Context C W)
        → Adds (before ++ ref ∷ []) added end
        → Adds before (ref ∷ added) end
    Adds-cons before ref added (ok _, t) h = h ∙ append-snoc before ref added
    Adds-cons before ref added (err e, t) h = tt
    Adds-cons before ref added (panic, t) h = tt

    -- A call that returns without an error has recorded, in the order of the objects, a reference to each one
    -- under the identifier that was drawn for it.
    pub Adds-apply_each :
        (docs : List Unstructured) (s : Context C W)
        → Adds
            (get_references_of_owned_objects s.backup)
            (refs_of L (drawn W (length docs) s.disk) docs)
            (apply_each L C W docs s)
    unfolding apply_each
    Adds-apply_each [] s = sym (append-nil _)
    Adds-apply_each (doc ∷ docs) s =
        rest (apply_one L C W doc s).0 (apply_one L C W doc s).1 (Adds-apply_one doc s)
          (Adds-apply_each docs (apply_one L C W doc s).1)
      where
        rest :
            (r : Res (Unit {0})) (t : Context C W)
            → (let (id, d) = W.new_uuid s.disk in
                Adds (get_references_of_owned_objects s.backup) (ref_of L id doc ∷ []) (r, t)
                × HasDisk d (r, t))
            → Adds
                (get_references_of_owned_objects t.backup)
                (refs_of L (drawn W (length docs) t.disk) docs)
                (apply_each L C W docs t)
            → Adds
                (get_references_of_owned_objects s.backup)
                (refs_of L (drawn W (suc (length docs)) s.disk) (doc ∷ docs))
                (bind_res (r, t) (λ _. apply_each L C W docs))
        rest (ok _) t (one, disk) ih =
            let (id, d) = W.new_uuid s.disk in
            let ref = ref_of L id doc in
            let before = get_references_of_owned_objects s.backup in
            Adds-cons before ref (refs_of L (drawn W (length docs) d) docs)
              (apply_each L C W docs t)
              (subst
                (λ (refs : ChildrenReferences).
                  Adds refs (refs_of L (drawn W (length docs) d) docs) (apply_each L C W docs t))
                one
                (subst
                  (λ (e : W.State).
                    Adds (get_references_of_owned_objects t.backup)
                      (refs_of L (drawn W (length docs) e) docs) (apply_each L C W docs t))
                  disk ih))
        rest (err e) t one ih = tt
        rest panic t one ih = tt
