-- ===== src/Api/DeepCopy/Cells.antt =====
-- Numbered cells, of which a copy may add some, and the arrays behind slices as such cells.
use backup_maker_controller.Prelude.{
  ℕ, zero, suc, ◌≤◌, ◌<◌, ◌≡◌, refl, ◌∙◌, ap, arith, Option, none, some, List, [], ◌∷◌, ◌++◌, map,
  take, length,
}
use backup_maker_controller.Api.DeepCopy.{Arrays, array_at, Slice, elements_of, copy_slice}

pub record Cells (X : Type 0) : Type 0 where
  pub size : ℕ
  pub at : ℕ → X

-- What `t` has beside `c` is in the later cells as it was; the cells of `c` may have been overwritten.
abbrev pub SameSince : {X : Type 0} → Cells X → Cells X → Cells X → Type 0
SameSince c t later = (a : ℕ) → c.size ≤ a → a < t.size → later.at a ≡ t.at a

-- The cells of `c` are in `t` as they were, and `t` may have more.
abbrev pub Extends : {X : Type 0} → Cells X → Cells X → Type 0
Extends c t = (c.size ≤ t.size) × ((a : ℕ) → a < c.size → t.at a ≡ c.at a)

module _ {X : Type 0} (c t u : Cells X) where
  pub Extends-trans : Extends c t → Extends t u → Extends c u
  Extends-trans h i = (omega arith, λ a below. i.1 a (omega arith) ∙ h.1 a below)

  -- Of two copies, what the first one added, and what the second one added.
  pub SameSince-first : (later : Cells X) → Extends t u → SameSince c u later → SameSince c t later
  SameSince-first later h since a above below = since a above (omega arith) ∙ h.1 a below

  pub SameSince-second : (later : Cells X) → Extends c t → SameSince c u later → SameSince t u later
  SameSince-second later h since a above below = since a (omega arith) below

pub Extends-refl : {X : Type 0} {c : Cells X} → Extends c c
Extends-refl = (omega arith, λ a below. refl)

abbrev pub cells_of : {A : Type 0} → Arrays A → Cells (List A)
cells_of h = record { size = length h; at = λ a. array_at a h }

-- What a slice holds; nil holds nothing.
abbrev pub elements : {A : Type 0} → Arrays A → Option Slice → List A
elements h none = []
elements h (some s) = elements_of h s

module _ {A : Type 0} where
  array_at-end : (h : Arrays A) (x : List A) → array_at (length h) (h ++ x ∷ []) ≡ x
  unfolding array_at
  array_at-end [] x = refl
  array_at-end (y ∷ h) x = array_at-end h x

  end-below : (h : Arrays A) (x : List A) → length h < length (h ++ x ∷ [])
  end-below [] x = omega arith
  end-below (y ∷ h) x = ground (arith, end-below h x)

  array_at-append :
      (h : Arrays A) (x : List A) (a : ℕ) → a < length h → array_at a (h ++ x ∷ []) ≡ array_at a h
  unfolding array_at
  array_at-append [] x a below = ground arith
  array_at-append (y ∷ h) x zero below = refl
  array_at-append (y ∷ h) x (suc a) below = array_at-append h x a (omega arith)

  -- An array at the end.
  pub append-Extends : (h : Arrays A) (x : List A) → Extends (cells_of h) (cells_of (h ++ x ∷ []))
  append-Extends h x =
      (let below = end-below h x in omega arith, λ a below. array_at-append h x a below)

  pub append-kept :
      (h later : Arrays A) (x : List A)
      → SameSince (cells_of h) (cells_of (h ++ x ∷ [])) (cells_of later)
      → array_at (length h) later ≡ x
  append-kept h later x since = since (length h) (omega arith) (end-below h x) ∙ array_at-end h x

  pub take-take : (n : ℕ) (xs : List A) → take n (take n xs) ≡ take n xs
  take-take zero xs = refl
  take-take (suc n) [] = refl
  take-take (suc n) (x ∷ xs) = ap (λ ys. x ∷ ys) (take-take n xs)

  map-same : (copy : A → A) → ((x : A) → copy x ≡ x) → (xs : List A) → map copy xs ≡ xs
  map-same copy same [] = refl
  map-same copy same (x ∷ xs) = rw (same x) (ap (λ ys. x ∷ ys) (map-same copy same xs))

  pub copy_slice-elements :
      (copy : A → A)
      → ((x : A) → copy x ≡ x)
      → (o : Option Slice) (h later : Arrays A)
      → SameSince (cells_of h) (cells_of (copy_slice copy o h).1) (cells_of later)
      → elements later (copy_slice copy o h).0 ≡ elements h o
  unfolding copy_slice elements_of
  copy_slice-elements copy same none h later since = refl
  copy_slice-elements copy same (some s) h later since =
      let there = take s.length_of (array_at s.address h) in
      ap (take s.length_of) (append-kept h later (map copy there) since ∙ map-same copy same there)
      ∙ take-take s.length_of (array_at s.address h)

  pub copy_slice-Extends :
      (copy : A → A) (o : Option Slice) (h : Arrays A)
      → Extends (cells_of h) (cells_of (copy_slice copy o h).1)
  unfolding copy_slice
  copy_slice-Extends copy none h = Extends-refl
  copy_slice-Extends copy (some s) h = append-Extends h (map copy (elements_of h s))
