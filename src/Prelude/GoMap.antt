-- ===== src/Prelude/GoMap.antt =====
-- Go maps with text keys, as association lists. Reading a missing key gives none; the callers that
-- read `m[k]` take the zero value. Assignment replaces the entry of the key or adds one.
use Prim.Native.String.{String}
use mathlib.Core.Path.{◌≡◌, refl}
use mathlib.Core.Option.{Option, none, some}
use mathlib.Core.List.{List, [], ◌∷◌}
use native.Mathlib.Omega.{arith}
use text.Mathlib.Text.{◌==◌}
use text.Mathlib.TextEquality.{eq_iff}
use backup_maker_controller.Prelude.Tests.{if◌then◌else◌}

abbrev pub Dict : Type 0 → Type 0
Dict V = List (String × V)

unfoldable pub lookup : {V : Type 0} → String → Dict V → Option V
lookup k [] = none
lookup k ((j, v) ∷ m) = if j == k then some v else lookup k m

-- `m[k] = v`
unfoldable pub assign : {V : Type 0} → String → V → Dict V → Dict V
assign k v [] = (k, v) ∷ []
assign k v ((j, w) ∷ m) = if j == k then (k, v) ∷ m else (j, w) ∷ assign k v m

-- `for k, v := range from { to[k] = v }`
unfoldable pub assign_all : {V : Type 0} → Dict V → Dict V → Dict V
assign_all [] m = m
assign_all ((k, v) ∷ from) m = assign_all from (assign k v m)

-- `m[k]` of a map of texts, whose zero value is the empty text.
unfoldable pub read : String → Dict String → String
unfolding lookup
read k m = elim (lookup k m) [ none ↦ "" | some v ↦ v ]

pub lookup-assign :
    {V : Type 0} (j k : String) (v : V) (m : Dict V)
    → lookup j (assign k v m) ≡ (if k == j then some v else lookup j m)
unfolding lookup assign
lookup-assign j k v [] = refl
lookup-assign j k v ((i, w) ∷ m) =
    ground (arith, eq_iff k j, eq_iff i k, eq_iff i j, lookup-assign j k v m)

pub lookup-nil : {V : Type 0} (k : String) → lookup {V = V} k [] ≡ none
unfolding lookup
lookup-nil k = refl

-- What the loop of assignments leaves at a key: the last entry of the source that has it.
unfoldable pub last_of : {V : Type 0} → String → Option V → Dict V → Option V
last_of k old [] = old
last_of k old ((j, v) ∷ from) = last_of k (if j == k then some v else old) from

pub lookup-assign_all :
    {V : Type 0} (k : String) (from m : Dict V)
    → lookup k (assign_all from m) ≡ last_of k (lookup k m) from
unfolding assign_all last_of
lookup-assign_all k [] m = refl
lookup-assign_all k ((j, v) ∷ from) m =
    rw (← lookup-assign k j v m) (lookup-assign_all k from (assign j v m))
