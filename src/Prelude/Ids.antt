-- ===== src/Prelude/Ids.antt =====
-- Lists of ids as sets: membership, and the first occurrence cut out.
use Prim.Native.Nat.{ℕ}
use mathlib.Core.Path.{◌≡◌, refl}
use mathlib.Core.Bool.{Bool, false, ◌||◌}
use mathlib.Core.List.{List, [], ◌∷◌, ◌++◌}
use native.Mathlib.Omega.{arith}
use torpeek.Prelude.Tests.{◌==◌, if◌then◌else◌}

abbrev pub contains : ℕ → List ℕ → Bool
contains i [] = false
contains i (j ∷ js) = i == j || contains i js

abbrev pub Nodup : List ℕ → Type 0
Nodup [] = Unit
Nodup (j ∷ js) = (contains j js ≡ false) × Nodup js

unfoldable pub cut : ℕ → List ℕ → List ℕ
cut i [] = []
cut i (j ∷ js) = if j == i then js else j ∷ cut i js

pub contains-cut :
    (i j : ℕ) (js : List ℕ)
    → Nodup js
    → contains j (cut i js) ≡ (if i == j then false else contains j js)
unfolding cut
contains-cut i j [] d = ground arith
contains-cut i j (k ∷ js) d = ground (arith, contains-cut i j js d.1)

pub Nodup-cut : (i : ℕ) (js : List ℕ) → Nodup js → Nodup (cut i js)
unfolding cut
Nodup-cut i [] d = d
Nodup-cut i (k ∷ js) d = ground (arith, Nodup-cut i js d.1, contains-cut i k js d.1)

pub contains-append :
    (j : ℕ) (xs ys : List ℕ) → contains j (xs ++ ys) ≡ (contains j xs || contains j ys)
contains-append j [] ys = refl
contains-append j (x ∷ xs) ys = ground (arith, contains-append j xs ys)

pub Nodup-snoc : (i : ℕ) (js : List ℕ) → contains i js ≡ false → Nodup js → Nodup (js ++ (i ∷ []))
Nodup-snoc i [] c d = (refl, tt)
Nodup-snoc i (j ∷ js) c d =
    ground (arith, Nodup-snoc i js (ground arith) d.1, contains-append j js (i ∷ []))
