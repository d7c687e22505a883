-- ===== src/Tests/Payload.antt =====
-- src/payload_refcounted.h: a payload for three observers, and guards on it.
use message_center_cpp.Common.{◌≡◌, none, some, [], ◌∷◌, arith}
use message_center_cpp.Payload.{Store, create, add_refs, releases}
use message_center_cpp.Payload.Lifetime.{created, Leaves, create_lifetime}

abbrev no_payloads : Store
no_payloads = λ _. none

create_lifetime_example :
    (s' t : Store) × (add_refs (create no_payloads 3 (5 ∷ 6 ∷ [])) 3 2 ≡ some s')
    × (releases 3 s' 3 ≡ some t)
    × Leaves no_payloads 3 (created no_payloads 3 (5 ∷ 6 ∷ [])) 0 t
create_lifetime_example = create_lifetime no_payloads 3 (5 ∷ 6 ∷ []) 2 3 (omega arith) (omega arith)

abbrev one_payload : Store
one_payload = create no_payloads 3 (5 ∷ [])
