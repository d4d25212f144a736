-- ===== src/Common/Text.antt =====
-- Texts that are not empty.
use text.Mathlib.TextLemmas.{cons≢nil}
use openid4vp.Common.Equality.{◌==◌, string_eq}
use mathlib.Core.Path.{◌≡◌}
use mathlib.Core.Logic.{◌≢◌}
use mathlib.Core.Bool.{false}
use native.Mathlib.Omega.{arith}
use text.Mathlib.TextEquality.{eq_iff}
use Prim.Native.Char.{Char}
use Prim.Native.String.{String}

pub beq_of_ne : (s t : String) → s ≢ t → (s == t) ≡ false
beq_of_ne s t h = ground (arith, eq_iff s t)

pub beq-cons-nil : (c : Char) (s : String) → (String.◌∷◌ c s == "") ≡ false
beq-cons-nil c s = beq_of_ne (String.◌∷◌ c s) "" (λ e. cons≢nil e)
