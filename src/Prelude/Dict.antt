-- ===== src/Prelude/Dict.antt =====
-- Python's dict with str keys: an association list in insertion order. Assigning to a key that is
-- there keeps its place.
use mathlib.Core.Path.{◌≡◌, refl}
use mathlib.Core.Option.{Option, none, some}
use mathlib.Core.List.{List, [], ◌∷◌, map}
use native.Mathlib.Omega.{arith}
use gem_gdc_emulation_enviro.Prelude.Tests.{if◌then◌else◌}
use gem_gdc_emulation_enviro.Prelude.Strings.{Text, text_eq, text_eq_iff}

abbrev pub Dict {ℓ} : Type ℓ → Type ℓ
Dict V = List (Text × V)

module _ {ℓ} {V : Type ℓ} where
  -- d.get(k)
  unfoldable pub get : Dict V → Text → Option V
  unfolding text_eq
  get [] k = none
  get ((j, v) ∷ d) k = if text_eq j k then some v else get d k

  -- d[k] = v
  unfoldable pub put : Dict V → Text → V → Dict V
  unfolding text_eq
  put [] k v = (k, v) ∷ []
  put ((j, w) ∷ d) k v = if text_eq j k then (k, v) ∷ d else (j, w) ∷ put d k v

  abbrev pub values : Dict V → List V
  values d = map (λ e. e.1) d

  pub get-put :
      (d : Dict V) (k j : Text) (v : V)
      → get (put d k v) j ≡ (if text_eq k j then some v else get d j)
  unfolding get put
  get-put [] k j v = refl
  get-put ((i, w) ∷ d) k j v =
      ground (arith, text_eq_iff i k, text_eq_iff i j, text_eq_iff k j, get-put d k j v)
