-- ===== src/Model/Tests.antt =====
-- Runs of the request format's operations, crates/gabriel-core/src/model.rs, and the instances of
-- the theorems about them.
use gabrielbrowser.Base.{List, [], ◌∷◌, Str, codes, str_eq, ◌≡◌, refl}
use gabrielbrowser.Base.Map
use gabrielbrowser.Model.Fields.{FieldMap, one, many, insert, from_pairs}

abbrev pairs : List (Str × Str)
pairs =
    (codes "Set-Cookie", codes "a=1")
    ∷ (codes "Accept", codes "*/*")
    ∷ (codes "Set-Cookie", codes "b=2")
    ∷ []

abbrev headers : FieldMap
headers =
    (codes "Accept", one (codes "*/*"))
    ∷ (codes "Set-Cookie", many (codes "a=1" ∷ codes "b=2" ∷ []))
    ∷ []

from_pairs_test : from_pairs [] pairs ≡ headers
unfolding from_pairs insert Map.insert Map.lookup str_eq
from_pairs_test = refl
