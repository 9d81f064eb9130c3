-- ===== src/Ring/Tests.antt =====
-- The lists of src/unvme_core.h on a ring of three nodes.
use sxaurora_unvme.Base.{ℕ, ◌≡◌, true, false, [], ◌∷◌, arith, refl, ◌==◌, if◌then◌else◌}
use sxaurora_unvme.Ring.{Links}
use sxaurora_unvme.Ring.Shape.{has, IsRing}

-- The rings 1, 2, 3 and 7.
abbrev after : ℕ → ℕ
after a = if a == 1 then 2 else if a == 2 then 3 else if a == 3 then 1 else a

abbrev before : ℕ → ℕ
before a = if a == 1 then 3 else if a == 2 then 1 else if a == 3 then 2 else a

abbrev links : Links
links = record { next = after; prev = before }

three : IsRing links 1 (1 ∷ 2 ∷ 3 ∷ [])
three = (refl, refl, (refl, (refl, (refl, tt))), ((refl, refl, (refl, refl, (refl, refl)))))

seven : IsRing links 7 (7 ∷ [])
seven = (refl, refl, (refl, tt), (refl, refl))

only_seven : (x : ℕ) → has x (7 ∷ []) ≡ true → has x (1 ∷ 2 ∷ 3 ∷ []) ≡ false
only_seven x h = ground arith
