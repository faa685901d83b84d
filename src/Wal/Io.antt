-- ===== src/Wal/Io.antt =====
-- Asynchronous calls that may fail with a message. What a call has changed stays changed when a
-- later one fails, so the world comes back beside the error too.
use yh_filemanager_vfs_stora.Prelude.{◌≡◌, refl, Result, ok, err}
use yh_filemanager_vfs_stora.Prelude.Text.{Text}

abbrev pub Io {ℓ} : Type 0 → Type ℓ → Type ℓ
Io W A = W → Result Text A × W

abbrev pub continue {ℓ κ} :
    {W : Type 0} {A : Type ℓ} {B : Type κ} → Result Text A × W → (A → Io W B) → Result Text B × W
continue (ok a, w) f = f a w
continue (err e, w) f = (err e, w)

infixl 5 ◌>>=◌ ◌>>◌
abbrev pub ◌>>=◌ {ℓ κ} : {W : Type 0} {A : Type ℓ} {B : Type κ} → Io W A → (A → Io W B) → Io W B
◌>>=◌ m f w = continue (m w) f

abbrev pub ◌>>◌ {ℓ κ} : {W : Type 0} {A : Type ℓ} {B : Type κ} → Io W A → Io W B → Io W B
m >> n = m >>= λ _. n

abbrev pub pure {ℓ} : {W : Type 0} {A : Type ℓ} → A → Io W A
pure a w = (ok a, w)

abbrev pub raise {ℓ} : {W : Type 0} {A : Type ℓ} → Text → Io W A
raise e w = (err e, w)

-- A change that cannot fail.
abbrev pub modify : {W : Type 0} → (W → W) → Io W (Unit {0})
modify f w = (ok tt, f w)

-- A chain that has succeeded, taken apart.
pub continue-eq-ok {ℓ κ} :
    {W : Type 0} {A : Type ℓ} {B : Type κ} (r : Result Text A × W) (f : A → Io W B) {b : B} {w' : W}
    → continue r f ≡ (ok b, w')
    → (a : A) × (w : W) × (r ≡ (ok a, w)) × (f a w ≡ (ok b, w'))
continue-eq-ok (ok a, w) f e = (a, w, refl, e)
continue-eq-ok (err x, w) f e = absurd (cc)
