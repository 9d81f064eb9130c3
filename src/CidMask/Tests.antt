-- ===== src/CidMask/Tests.antt =====
-- The masks of command ids on two words.
use sxaurora_unvme.Base.{◌≡◌, true, false, [], ◌∷◌, some, refl}
use sxaurora_unvme.CidMask.{Mask, mask_test, find_cid}

-- The ids 0, 1 and 64 are in use.
abbrev two_words : Mask
two_words = 3 ∷ 1 ∷ []

abbrev four_ids : Mask
four_ids = 7 ∷ []

used_64 : mask_test two_words 64 ≡ true
unfolding mask_test
used_64 = refl

free_65 : mask_test two_words 65 ≡ false
unfolding mask_test
free_65 = refl

-- From id 1 on, the first free one is 3.
found_3 : find_cid 4 4 four_ids 1 ≡ some 3
unfolding find_cid
found_3 = refl
