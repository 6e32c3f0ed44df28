-- ===== src/Planning/Samples.antt =====
-- Samples: a vendor with one vehicle that is too small and two that fit
-- (apps/api/src/planning/planning.service.ts).
use kruze.Base.{ℕ, ◌≡◌, true, not, none, some, [], ◌∷◌, map, find?, keep}
use kruze.Base.Effects.{ok}
use kruze.Maintenance.{Link}
use kruze.Trip.Assign.{vehicle_id}
use kruze.Planning.Search.{Candidate, Db, ResourceSearchResult, candidates, find_eligible}
use kruze.Planning.Picked.{is_suitable}
use kruze.Planning.Evaluated.{newly, find_eligible-first, find_eligible-evaluations}

abbrev vehicle : ℕ → ℕ → Candidate
vehicle id seats = record { id = id; label = id; capacity = some seats; active = true }

abbrev link : ℕ → Link
link id = record { resource_id = id; vendor_org_id = 20; active = true }

abbrev three_vehicles : Db
three_vehicles = record {
  trip = record {
    compliance = record { rules = []; documents = []; evaluations = [] };
    employees = [];
    trips = [];
    trip_employees = [];
    assignments = [];
    events = [];
    outbox = [];
    next_id = 1;
  };
  maintenance = record {
    records = [];
    vehicle_vendors = link 1 ∷ link 2 ∷ link 3 ∷ [];
    next_id = 1;
  };
  vehicles = vehicle 1 4 ∷ vehicle 2 7 ∷ vehicle 3 9 ∷ [];
  drivers = [];
  guards = [];
  driver_vendors = [];
  guard_vendors = [];
}

find_eligible-first_example :
    (r : ResourceSearchResult) × ((find_eligible vehicle_id 20 6 10 5000 4000 three_vehicles).1
      ≡ ok r)
    × (r.picked
        ≡ find?
            (is_suitable vehicle_id 6 20 10 5000 4000 three_vehicles)
            (candidates vehicle_id 20 three_vehicles))
find_eligible-first_example = find_eligible-first vehicle_id 20 6 10 5000 4000 three_vehicles

find_eligible-evaluations_example :
    (r : ResourceSearchResult) × ((find_eligible vehicle_id 20 6 10 5000 4000 three_vehicles).1
      ≡ ok r)
    × (map (λ e. e.id) (keep (λ e. e.rejected) r.evaluations)
        ≡ map
            (λ c. c.id)
            (keep
              (λ c. not (is_suitable vehicle_id 6 20 10 5000 4000 three_vehicles c))
              (candidates vehicle_id 20 three_vehicles)))
    × (map (λ e. e.id) (keep (λ e. not e.rejected) r.evaluations) ≡ newly none r.picked)
find_eligible-evaluations_example =
    find_eligible-evaluations vehicle_id 20 6 10 5000 4000 three_vehicles
