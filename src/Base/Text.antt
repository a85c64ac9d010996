-- ===== src/Base/Text.antt =====
-- Texts that are joined.
use Prim.Native.String.{String, ◌++◌ as str_append}
use mathlib.Core.Path.{◌≡◌}
use mathlib.Core.Logic.{◌≢◌}
use mathlib.Core.Bool.{false}
use text.Mathlib.Text.{◌==◌ as str_eq}
use text.Mathlib.TextEquality.{eq_iff}
use text.Mathlib.TextLemmas.{append-eq-nil_iff}

-- Nothing joined behind a prefix gives the empty text.
pub str_append-ne_empty : (s t : String) → str_eq s "" ≡ false → str_append s t ≢ ""
str_append-ne_empty s t h e = cc ((eq_iff s "").1 ((append-eq-nil_iff {p = s} {q = t}).0 e).0)
