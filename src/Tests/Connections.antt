-- ===== src/Tests/Connections.antt =====
-- Runs of the connection map.
use cpxy.Base.{ℕ, ◌<◌, ◌≡◌, refl, none, some, List, [], ◌∷◌, ◌==◌, if◌then◌else◌, arith}
use cpxy.Udpman.ConnMap.{Conn, insert, get, find_available_id}
use cpxy.Udpman.ConnMap.Sorted.{IsSorted, get-insert}
use cpxy.Udpman.ConnMap.Ids.{find_available_id_free}

abbrev conn : ℕ → Conn ℕ
conn n = record { id = n; body = n }

abbrev three : List (Conn ℕ)
three = conn 1 ∷ conn 4 ∷ conn 65535 ∷ []

three-IsSorted : IsSorted three
three-IsSorted = (omega arith, (omega arith, (omega arith, tt)))

get-insert_example :
    get 4 (insert (conn 3) three) ≡ (if (conn 3).id == 4 then some (conn 3) else get 4 three)
get-insert_example = get-insert 4 (conn 3) three three-IsSorted

three-find_available_id : find_available_id three ≡ some 0
unfolding find_available_id
three-find_available_id = refl

find_available_id_free_example : (0 < 65536) × (get 0 three ≡ none)
find_available_id_free_example =
    find_available_id_free three 0 three-IsSorted three-find_available_id
