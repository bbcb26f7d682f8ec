-- ===== src/Base/Bools.antt =====
-- Laws of `||` and `&&`.
use mathlib.Core.Path.{◌≡◌, refl}
use mathlib.Core.Bool.{Bool, true, false, ◌&&◌, ◌||◌}

pub ||-false : (x : Bool) → (x || false) ≡ x
||-false true = refl
||-false false = refl

pub ||-true : (x : Bool) → (x || true) ≡ true
||-true true = refl
||-true false = refl

pub ||-self : (x : Bool) → (x || x) ≡ x
||-self true = refl
||-self false = refl

pub ||-assoc : (x y z : Bool) → ((x || y) || z) ≡ (x || (y || z))
||-assoc true y z = refl
||-assoc false y z = refl

pub &&-true : (x : Bool) → (x && true) ≡ x
&&-true true = refl
&&-true false = refl

pub &&-false : (x : Bool) → (x && false) ≡ false
&&-false true = refl
&&-false false = refl

pub &&-self : (x : Bool) → (x && x) ≡ x
&&-self true = refl
&&-self false = refl
