-- ===== src/Base/Texts.antt =====
-- Equality of Go's strings.
use text.Mathlib.TextEquality.{eq_iff}
use Prim.Native.String.{String}
use mathlib.Core.Path.{◌≡◌, refl}
use mathlib.Core.Bool.{true}
use meeting_baa_s.Base.Tests.{str_eq}

pub str_eq_refl : (s : String) → str_eq s s ≡ true
str_eq_refl s = (eq_iff s s).1 refl

pub str_eq-eq : {s t : String} → str_eq s t ≡ true → s ≡ t
str_eq-eq {s} {t} h = (eq_iff s t).0 h
