-- ===== src/Base/Text.antt =====
-- Dictionaries from texts to texts, as association lists.
use Prim.Native.String.{String}
use mathlib.Core.Path.{◌≡◌}
use mathlib.Core.Logic.{◌↔◌}
use mathlib.Core.Bool.{Bool, true, false}
use mathlib.Core.Option.{Option, none, some}
use mathlib.Core.List.{List, [], ◌∷◌}
use native.Mathlib.Omega.{arith}
use text.Mathlib.Text.{◌==◌ as str_eq}
use text.Mathlib.TextEquality.{eq_iff}
use aethergrid.Base.Logic.{if◌then◌else◌}

abbrev pub Dict : Type 0
Dict = List (String × String)

-- `d.get(key)`
unfoldable pub get : String → Dict → Option String
get key [] = none
get key ((k, v) ∷ d) = if str_eq k key then some v else get key d

-- `d.get(key) == value`
unfoldable pub has_entry : String → String → Dict → Bool
unfolding get
has_entry key value d = elim (get key d) [ none ↦ false | some v ↦ str_eq v value ]

pub has_entry_iff :
    (key value : String) (d : Dict) → (has_entry key value d ≡ true) ↔ (get key d ≡ some value)
unfolding has_entry
has_entry_iff key value d = (λ h. to_get (get key d) h, λ e. of_get (get key d) e)
  where
    to_get :
        (o : Option String)
        → elim o [ none ↦ false | some v ↦ str_eq v value ] ≡ true
        → o ≡ some value
    to_get none h = cc
    to_get (some v) h = ground (arith, eq_iff v value)

    of_get :
        (o : Option String)
        → o ≡ some value
        → elim o [ none ↦ false | some v ↦ str_eq v value ] ≡ true
    of_get none e = cc
    of_get (some v) e = ground (arith, eq_iff v value)
