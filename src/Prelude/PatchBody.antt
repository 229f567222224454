-- ===== src/Prelude/PatchBody.antt =====
-- The fields of a `PATCH` body, as `model_dump(exclude_unset=True)` tells them apart.
use mathlib.Core.Option.{Option, none, some}
use trustedoss_portal.Prelude.Outcome.{Result, ok, err}

-- A field is not sent, or sent with a value, which may be null.
pub data Patch {ℓ} (A : Type ℓ) : Type ℓ where
  unset : Patch A
  sent : Option A → Patch A

-- A column that may not be null refuses the write.
abbrev pub patched {ℓ κ} : {E : Type ℓ} {A : Type κ} → E → Patch A → A → Result E A
patched refused unset old = ok old
patched refused (sent none) old = err refused
patched refused (sent (some v)) old = ok v

abbrev pub patched_nullable {ℓ} : {A : Type ℓ} → Patch A → Option A → Option A
patched_nullable unset old = old
patched_nullable (sent v) old = v
