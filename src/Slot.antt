-- ===== src/Slot.antt =====
-- queue/queue.c: the list of one slot, between its two sentinels, earliest event first.
pub mod Order
use congenial_octo_telegram.Base.{ℕ, List, [], ◌∷◌, Option, none, some, leb, ◌==◌, if◌then◌else◌}
use congenial_octo_telegram.Event.{Event}

-- The search for the first later event, and the four assignments that link `elem` before it.
unfoldable pub insert : Event → List Event → List Event
insert elem [] = elem ∷ []
insert elem (current ∷ rest) =
    if leb current.timestamp elem.timestamp
    then current ∷ insert elem rest
    else elem ∷ current ∷ rest

-- `head->next`, unlinked.
unfoldable pub extract : List Event → Option (Event × List Event)
extract [] = none
extract (elem ∷ rest) = some (elem, rest)

-- The unlinking of the element at an address from the list that holds it.
unfoldable pub unlink : ℕ → List Event → List Event
unlink addr [] = []
unlink addr (x ∷ xs) = if x.addr == addr then xs else x ∷ unlink addr xs
