-- ===== src/Api/DeepCopy/Lists.antt =====
-- The deep copy of a list shares nothing with the list, if that of an item does not with the item.
use mathlib.Core.Option
use backup_maker_controller.Prelude.{
  ◌≡◌, refl, sym, ap, ◌∙◌, Option, none, some, List, [], ◌∷◌, map, take, zero, suc, ℕ, All,
}
use backup_maker_controller.Kube.{TypeMeta}
use backup_maker_controller.Api.DeepCopy.{
  MetaV1, Store, Slice, ListSlices, ListStore, array_at, elements_of, each_into, items_into,
  list_meta_into, list_into, deep_copy_object,
}
use backup_maker_controller.Api.DeepCopy.Cells.{
  cells_of, elements, SameSince, Extends, Extends-refl, append-Extends, append-kept, take-take,
}
use backup_maker_controller.Api.DeepCopy.Separate.{
  IsDeep, of_memory, of_strings, of_conditions, of_references, of_healths, MayOverwrite,
  MayOverwrite-first, MayOverwrite-second, Keeps, Keeps-trans, IsSeparate, IsIn,
}

-- A list as a value.
pub record ListOf (V L : Type 0) : Type 0 where
  pub type_meta : TypeMeta
  pub list_meta : L
  pub items : List V

map-take : {A B : Type 0} (f : A → B) (n : ℕ) (xs : List A) → map f (take n xs) ≡ take n (map f xs)
map-take f zero xs = refl
map-take f (suc n) [] = refl
map-take f (suc n) (x ∷ xs) = ap (λ ys. f x ∷ ys) (map-take f n xs)

module _ {M : MetaV1} (D : IsDeep M) {A V : Type 0} (into : A → Store M → A × Store M)
    (at : Store M → A → V) where
  abbrev pub list_at : ListStore M A → ListSlices M → ListOf V D.ListMetaValue
  list_at s x = record {
    type_meta = x.type_meta;
    list_meta = D.list_meta_at s.store.memory x.list_meta;
    items = map (at s.store) (elements s.items x.items);
  }

  -- The store of a list became `t` by a copy, and is `later` now.
  abbrev pub MayOverwriteList : ListStore M A → ListStore M A → ListStore M A → Type 0
  MayOverwriteList s t later =
      MayOverwrite D s.store t.store later.store
      × SameSince (cells_of s.items) (cells_of t.items) (cells_of later.items)

  abbrev pub KeepsList : ListStore M A → ListStore M A → Type 0
  KeepsList s t = Keeps D s.store t.store × Extends (cells_of s.items) (cells_of t.items)

  -- The items of a list, if there is one, lie in the store.
  abbrev pub AllIn : ListStore M A → Option (ListSlices M) → Type 0
  AllIn s none = Unit
  AllIn s (some x) = All (IsIn D at s.store) (elements s.items x.items)

  -- What lies in a store lies in one that has more, and reads the same there.
  IsIn-later :
      (s t : Store M) (xs : List A) → Keeps D s t → All (IsIn D at s) xs → All (IsIn D at t) xs
  IsIn-later s t [] h tt = tt
  IsIn-later s t (x ∷ xs) h (i, is) =
      (λ u g. i u (Keeps-trans D s t u h g) ∙ sym (i t h), IsIn-later s t xs h is)

  IsIn-map :
      (s t : Store M) (xs : List A)
      → Keeps D s t
      → All (IsIn D at s) xs
      → map (at t) xs ≡ map (at s) xs
  IsIn-map s t [] h tt = refl
  IsIn-map s t (x ∷ xs) h (i, is) = rw (i t h, IsIn-map s t xs h is) refl

  module _ (H : IsSeparate D into at) where
    each_into-Keeps : (xs : List A) (s : Store M) → Keeps D s (each_into into xs s).1
    unfolding each_into
    each_into-Keeps [] s = λ i. Extends-refl
    each_into-Keeps (x ∷ xs) s =
        let t = (into x s).1 in
        Keeps-trans D s t (each_into into xs t).1 (H.keeps x s) (each_into-Keeps xs t)

    each_into-reads :
        (xs : List A) (s later : Store M)
        → All (IsIn D at s) xs
        → MayOverwrite D s (each_into into xs s).1 later
        → map (at later) (each_into into xs s).0 ≡ map (at s) xs
    unfolding each_into
    each_into-reads [] s later is w = refl
    each_into-reads (x ∷ xs) s later (i, is) w =
        let t = (into x s).1 in
        let u = (each_into into xs t).1 in
        let first = H.reads x s later (MayOverwrite-first D s t u later w (each_into-Keeps xs t)) in
        let others =
          each_into-reads xs t later (IsIn-later s t xs (H.keeps x s) is)
            (MayOverwrite-second D s t u later w (H.keeps x s)) in
        rw (first, others, IsIn-map s t xs (H.keeps x s) is) refl

    items_into-Keeps : (o : Option Slice) (s : ListStore M A) → KeepsList s (items_into into o s).1
    unfolding items_into
    items_into-Keeps none s = (λ i. Extends-refl, Extends-refl)
    items_into-Keeps (some x) s =
        (each_into-Keeps (elements_of s.items x) s.store, append-Extends s.items _)

    items_into-reads :
        (o : Option Slice) (s later : ListStore M A)
        → All (IsIn D at s.store) (elements s.items o)
        → MayOverwriteList s (items_into into o s).1 later
        → map (at later.store) (elements later.items (items_into into o s).0)
          ≡ map (at s.store) (elements s.items o)
    unfolding items_into elements_of
    items_into-reads none s later is w = refl
    items_into-reads (some x) s later is w =
        let there = array_at x.address s.items in
        let ys = (each_into into (take x.length_of there) s.store).0 in
        rw
          (
            append-kept s.items later.items ys w.1,
            map-take (at later.store) x.length_of ys,
            each_into-reads (take x.length_of there) s.store later.store is w.0,
            ← map-take (at s.store) x.length_of (take x.length_of there),
            take-take x.length_of there,
          )
          refl

    -- The copy of the metadata, which comes first.
    list_meta-Keeps :
        (x : M.ListMeta) (s : ListStore M A) → Keeps D s.store (list_meta_into into x s).1.store
    unfolding list_meta_into
    list_meta-Keeps x s of_memory = D.extends_list x s.store.memory
    list_meta-Keeps x s of_strings = Extends-refl
    list_meta-Keeps x s of_conditions = Extends-refl
    list_meta-Keeps x s of_references = Extends-refl
    list_meta-Keeps x s of_healths = Extends-refl

    -- If the deep copy of an item shares nothing with the item, that of a list shares nothing with the list:
    -- for a list whose items lie in the store, it reads as the list did when it was made, whatever is
    -- written afterwards to what there was before; and making it writes to nothing of that.
    pub list_into-Separate :
        (x : ListSlices M) (s later : ListStore M A)
        → All (IsIn D at s.store) (elements s.items x.items)
        → MayOverwriteList s (list_into into x s).1 later
        → (list_at later (list_into into x s).0 ≡ list_at s x) × KeepsList s (list_into into x s).1
    unfolding list_into list_meta_into
    list_into-Separate x s later is w =
        let t = (list_meta_into into x.list_meta s).1 in
        let u = (items_into into x.items t).1 in
        let there = elements s.items x.items in
        let meta_keeps = list_meta-Keeps x.list_meta s in
        let items_keep = items_into-Keeps x.items t in
        let items_read =
          items_into-reads x.items t later (IsIn-later s.store t.store there meta_keeps is)
            (MayOverwrite-second D s.store t.store u.store later.store w.0 meta_keeps, w.1) in
        let meta_overwritten =
          MayOverwrite-first D s.store t.store u.store later.store w.0 items_keep.0 in
        (
          rw
              (
                D.copied_list x.list_meta s.store.memory later.store.memory
                    (meta_overwritten of_memory),
                items_read,
                IsIn-map s.store t.store there meta_keeps is,
              )
              refl,
          (Keeps-trans D s.store t.store u.store meta_keeps items_keep.0, items_keep.1),
        )

    -- If the deep copy of an item shares nothing with the item, the pointer that `DeepCopyObject` of a list
    -- returns is nil for nil, and else a copy that shares nothing with the list, where its items lie in
    -- the store.
    pub list_deep_copy_object-Separate :
        (o : Option (ListSlices M)) (s later : ListStore M A)
        → AllIn s o
        → MayOverwriteList s (deep_copy_object (list_into into) o s).1 later
        → (Option.map (list_at later) (deep_copy_object (list_into into) o s).0
            ≡ Option.map (list_at s) o)
          × KeepsList s (deep_copy_object (list_into into) o s).1
    unfolding deep_copy_object
    list_deep_copy_object-Separate none s later is w = (refl, ((λ i. Extends-refl), Extends-refl))
    list_deep_copy_object-Separate (some x) s later is w =
        let (reads, keeps) = list_into-Separate x s later is w in (ap some reads, keeps)
