-- ===== src/Bmg/Manifests/Pipeline.antt =====
-- The loop of `parseRenderedManifests` as three separate passes.
use mathlib.Core.List.{append-nil, append_assoc}
use backup_maker_controller.Prelude.{
  all, sym, String, ◌≡◌, ◌∙◌, refl, arith, ◌==◌, Bool, true, not, List, [], ◌∷◌, ◌++◌, keep, map,
  split, Err, Fallible, gives, fails, if◌then◌else◌,
}
use backup_maker_controller.Kube.{Unstructured}
use backup_maker_controller.Libs.{Libs}
use backup_maker_controller.Domain.ResourceTypes.{ResourceTypes}
use backup_maker_controller.Bmg.Manifests.{
  clean, wanted, add_object, add_document, parse_documents, parse_rendered_manifests,
}

-- The documents of a text that are not empty.
abbrev pub documents : String → List String
documents content = keep (λ doc. not (doc == "")) (map clean (split content "---\n"))

abbrev pub cons_result : Unstructured → Fallible (List Unstructured) → Fallible (List Unstructured)
cons_result x (gives xs) = gives (x ∷ xs)
cons_result x (fails e) = fails e

abbrev pub keep_result :
    (Unstructured → Bool) → Fallible (List Unstructured) → Fallible (List Unstructured)
keep_result p (gives xs) = gives (keep p xs)
keep_result p (fails e) = fails e

abbrev pub append_result :
    List Unstructured → Fallible (List Unstructured) → Fallible (List Unstructured)
append_result xs (gives ys) = gives (xs ++ ys)
append_result xs (fails e) = fails e

append_result-nil : (r : Fallible (List Unstructured)) → append_result [] r ≡ r
append_result-nil (gives xs) = refl
append_result-nil (fails e) = refl

module _ (L : Libs) (decode : String → Fallible Unstructured) where
  abbrev decoded_then :
      Fallible Unstructured → Fallible (List Unstructured) → Fallible (List Unstructured)
  decoded_then (gives x) rest = cons_result x rest
  decoded_then (fails e) rest = fails (Err.wrap e "cannot parse rendered YAML")

  -- All documents decoded, or the error of the first that cannot be.
  abbrev pub decode_all : List String → Fallible (List Unstructured)
  decode_all [] = gives []
  decode_all (doc ∷ docs) = decoded_then (decode doc) (decode_all docs)

  append_result-cons :
      (types : ResourceTypes) (objects : List Unstructured) (x : Unstructured)
      (r : Fallible (List Unstructured))
      → append_result objects (keep_result (wanted L decode types) (cons_result x r))
        ≡ append_result
            (if wanted L decode types x then objects ++ x ∷ [] else objects)
            (keep_result (wanted L decode types) r)
  append_result-cons types objects x (fails e) = refl
  append_result-cons types objects x (gives xs) =
      ground (arith, append_assoc objects (x ∷ []) (keep (wanted L decode types) xs))

  add_object-eq :
      (types : ResourceTypes) (d : Fallible Unstructured) (docs : List String)
      (objects : List Unstructured)
      → ((objects : List Unstructured)
          → parse_documents L decode types docs objects
            ≡ append_result objects (
                keep_result
                  (wanted L decode types)
                  (decode_all (keep (λ doc. not (doc == "")) (map clean docs)))))
      → (elim (add_object L decode types d objects) [
        | gives objects' ↦ parse_documents L decode types docs objects'
        | fails e ↦ fails e
      ])
        ≡ append_result objects (
            keep_result
              (wanted L decode types)
              (decoded_then d (decode_all (keep (λ doc. not (doc == "")) (map clean docs)))))
  unfolding add_object
  add_object-eq types (fails e) docs objects ih = refl
  add_object-eq types (gives x) docs objects ih = ground (
    arith,
    ih objects,
    ih (objects ++ x ∷ []),
    append_result-cons types objects x
        (decode_all (keep (λ doc. not (doc == "")) (map clean docs))),
  )

  parse_documents-eq :
      (types : ResourceTypes) (docs : List String) (objects : List Unstructured)
      → parse_documents L decode types docs objects
        ≡ append_result objects (
            keep_result
              (wanted L decode types)
              (decode_all (keep (λ doc. not (doc == "")) (map clean docs))))
  unfolding parse_documents add_document
  parse_documents-eq types [] objects = ground (arith, append-nil objects)
  parse_documents-eq types (doc ∷ docs) objects = ground (
    arith,
    parse_documents-eq types docs objects,
    add_object-eq types (decode (clean doc)) docs objects (parse_documents-eq types docs),
  )

  -- The loop is three passes over the text: its documents are decoded up to the first that cannot be,
  -- whose error is wrapped and returned, and of the decoded objects the wanted ones are kept, in
  -- their order.
  pub parse_rendered_manifests-eq :
      (content : String) (types : ResourceTypes)
      → parse_rendered_manifests L decode content types
        ≡ keep_result (wanted L decode types) (decode_all (documents content))
  unfolding parse_rendered_manifests
  parse_rendered_manifests-eq content types =
      parse_documents-eq types (split content "---\n") []
      ∙ append_result-nil (keep_result (wanted L decode types) (decode_all (documents content)))

  All-keep : (p : Unstructured → Bool) (xs : List Unstructured) → all p (keep p xs) ≡ true
  All-keep p [] = refl
  All-keep p (x ∷ xs) = ground (arith, All-keep p xs)

  -- Every object that is returned passes the filter of kinds.
  pub parse_rendered_manifests-wanted :
      (content : String) (types : ResourceTypes) (objects : List Unstructured)
      → parse_rendered_manifests L decode content types ≡ gives objects
      → all (wanted L decode types) objects ≡ true
  parse_rendered_manifests-wanted content types objects h =
      kept types (decode_all (documents content)) objects
        (sym (parse_rendered_manifests-eq content types) ∙ h)
    where
      kept :
          (types : ResourceTypes) (r : Fallible (List Unstructured)) (objects : List Unstructured)
          → keep_result (wanted L decode types) r ≡ gives objects
          → all (wanted L decode types) objects ≡ true
      kept types (gives xs) objects e = ground (arith, e, All-keep (wanted L decode types) xs)
      kept types (fails x) objects e = cc
