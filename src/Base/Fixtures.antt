-- ===== src/Base/Fixtures.antt =====
-- A database whose transactions roll back, for the samples of the components.
use mathlib.Core.Path.{refl}
use kruze.Base.Effects.{Transactions}

abbrev pub restoring : {S : Type 0} → Transactions S
restoring = record { undo = λ before during. before; rolls_back = λ before during. refl }
