-- ===== src/Base/Maps.antt =====
-- A Go map with string keys as a function. A missing key is `none`, or `false` for a set.
use mathlib.Core.Bool.{Bool, true, false}
use mathlib.Core.Option.{Option, none, some}
use selective_mirror.Base.Tests.{if◌then◌else◌}
use selective_mirror.Base.Strings.{Text, same}

abbrev pub TextMap {ℓ} : Type ℓ → Type ℓ
TextMap V = Text → Option V

abbrev pub TextSet : Type 0
TextSet = Text → Bool

-- m[k] = v
abbrev pub put {ℓ} : {V : Type ℓ} → Text → V → TextMap V → TextMap V
put k v m j = if same k j then some v else m j

-- delete(m, k)
abbrev pub discard {ℓ} : {V : Type ℓ} → Text → TextMap V → TextMap V
discard k m j = if same k j then none else m j

abbrev pub put_key : Text → TextSet → TextSet
put_key k m j = if same k j then true else m j

abbrev pub discard_key : Text → TextSet → TextSet
discard_key k m j = if same k j then false else m j
