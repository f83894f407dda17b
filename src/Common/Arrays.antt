-- ===== src/Common/Arrays.antt =====
-- Functions on the native numbers as arrays.
use Prim.Native.Nat.{ℕ, ◌+◌, ◌-◌}
use mathlib.Core.Bool.{◌&&◌}
use sql_relational_database.Common.Tests.{ltb, leb, if◌then◌else◌}

-- f with the `count` values of g from `start` on written from `to` on.
abbrev pub spliced {ℓ} : {A : Type ℓ} → ℕ → ℕ → ℕ → (ℕ → A) → (ℕ → A) → ℕ → A
spliced to start count g f j = if leb to j && ltb j (to + count) then g (start + (j - to)) else f j
