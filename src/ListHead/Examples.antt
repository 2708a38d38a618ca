-- ===== src/ListHead/Examples.antt =====
-- The list functions of kernel/include/list.h on a ring with the head 100.
use sky_os.Base.{ℕ, refl, List, [], ◌∷◌, erase}
use sky_os.ListHead.{Links, init_list_head, list_append, list_del}
use sky_os.ListHead.Ring.{IsRing, init_list_head-IsRing, list_append-IsRing, list_del-IsRing}

abbrev unlinked : Links
unlinked = record { next = λ _. 0; prev = λ _. 0 }

abbrev ring0 : Links
ring0 = init_list_head 100 unlinked

abbrev ring1 : Links
ring1 = list_append 101 100 ring0

abbrev ring2 : Links
ring2 = list_append 102 100 ring1

abbrev entries : List ℕ
entries = 101 ∷ []

ring0-IsRing : IsRing ring0 100 []
ring0-IsRing = init_list_head-IsRing unlinked 100

ring1-IsRing : IsRing ring1 100 (101 ∷ [])
ring1-IsRing = list_append-IsRing ring0 100 [] ring0-IsRing 101 refl

list_del-IsRing_example : IsRing (list_del 101 ring1) 100 (erase 101 (101 ∷ []))
list_del-IsRing_example = list_del-IsRing ring1 100 (101 ∷ []) ring1-IsRing 101 refl
