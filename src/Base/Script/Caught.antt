-- ===== src/Base/Script/Caught.antt =====
-- Results that raise nothing but what `except Exception` catches.
use configuration.Base.{true, ◌≡◌, Result, ok, raised}
use configuration.Base.Script.{is_exception}

abbrev pub IsCaught {ℓ} : {A : Type ℓ} → Result A → Type 0
IsCaught (ok a) = Unit
IsCaught (raised e) = is_exception e ≡ true
