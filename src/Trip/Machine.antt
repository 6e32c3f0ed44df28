-- ===== src/Trip/Machine.antt =====
-- apps/api/src/trip/trip-state-machine.ts
use kruze.Base.{ℕ, Bool, true, false, List, [], ◌∷◌, any, ◌==◌}

pub data TripStatus : Type 0 where
  created scheduled resources_assigned driver_accepted en_route_to_first_pickup : TripStatus
  running paused reassigning breakdown sos_active : TripStatus
  completed cancelled no_show failed : TripStatus

-- `TRANSITIONS`
unfoldable pub transitions : TripStatus → List TripStatus
transitions created = scheduled ∷ cancelled ∷ failed ∷ []
transitions scheduled = resources_assigned ∷ cancelled ∷ failed ∷ []
transitions resources_assigned = driver_accepted ∷ reassigning ∷ cancelled ∷ failed ∷ []
transitions driver_accepted = en_route_to_first_pickup ∷ reassigning ∷ cancelled ∷ failed ∷ []
transitions en_route_to_first_pickup = running ∷ no_show ∷ breakdown ∷ sos_active ∷ cancelled ∷ []
transitions running = completed ∷ no_show ∷ breakdown ∷ sos_active ∷ paused ∷ cancelled ∷ []
transitions paused = running ∷ breakdown ∷ sos_active ∷ cancelled ∷ []
transitions reassigning = resources_assigned ∷ cancelled ∷ failed ∷ []
transitions breakdown = reassigning ∷ cancelled ∷ []
transitions sos_active = running ∷ cancelled ∷ []
transitions completed = []
transitions cancelled = []
transitions no_show = []
transitions failed = []

-- Statuses are compared as the strings that they are; here by their number.
abbrev pub code : TripStatus → ℕ
code created = 0
code scheduled = 1
code resources_assigned = 2
code driver_accepted = 3
code en_route_to_first_pickup = 4
code running = 5
code paused = 6
code reassigning = 7
code breakdown = 8
code sos_active = 9
code completed = 10
code cancelled = 11
code no_show = 12
code failed = 13

abbrev pub same_status : TripStatus → TripStatus → Bool
same_status s t = code s == code t

unfoldable pub can_transition : TripStatus → TripStatus → Bool
unfolding transitions
can_transition from to = any (λ t. same_status t to) (transitions from)

abbrev is_empty : List TripStatus → Bool
is_empty [] = true
is_empty (_ ∷ _) = false

unfoldable pub is_terminal : TripStatus → Bool
unfolding transitions
is_terminal status = is_empty (transitions status)
