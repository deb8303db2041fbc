-- ===== src/AccountKey/Separator.antt =====
-- The separator '_' of a platform account key, as a character in front of a text.
use Prim.Native.String.{[], ◌∷◌, ◌++◌}
use text.Mathlib.TextLemmas.{nil-append, cons-append}
use platform_mihomo_service.Base.{Char, String, ◌≡◌, ◌∙◌, ap}

abbrev pub underscore : Char
underscore = "_"

pub underscore-append : (s : String) → "_" ++ s ≡ underscore ∷ s
underscore-append s = cons-append "_" [] s ∙ ap (λ (r : String). underscore ∷ r) (nil-append s)
