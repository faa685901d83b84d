-- ===== src/Prelude/Results.antt =====
-- `?` on a `Result` and `map_err`.
use mathlib.Core.Path.{◌≡◌, refl}
use yh_filemanager_vfs_stora.Prelude.Tests.{Result, ok, err}

infixl 5 ◌>>=◌
abbrev pub ◌>>=◌ {ℓ κ μ} :
    {E : Type ℓ} {A : Type κ} {B : Type μ} → Result E A → (A → Result E B) → Result E B
(ok a) >>= f = f a
(err e) >>= f = err e

abbrev pub map_err {ℓ κ μ} :
    {E : Type ℓ} {F : Type κ} {A : Type μ} → (E → F) → Result E A → Result F A
map_err f (ok a) = ok a
map_err f (err e) = err (f e)

-- A chain that has succeeded, taken apart.
pub bind-eq-ok {ℓ κ μ} :
    {E : Type ℓ} {A : Type κ} {B : Type μ} (r : Result E A) (f : A → Result E B) {b : B}
    → (r >>= f) ≡ ok b
    → (a : A) × (r ≡ ok a) × (f a ≡ ok b)
bind-eq-ok (ok a) f e = (a, refl, e)
bind-eq-ok (err x) f e = absurd (cc)

pub map_err-eq-ok {ℓ κ μ} :
    {E : Type ℓ} {F : Type κ} {A : Type μ} (g : E → F) (r : Result E A) {a : A}
    → map_err g r ≡ ok a
    → r ≡ ok a
map_err-eq-ok g (ok a) e = cc
map_err-eq-ok g (err x) e = absurd (cc)
