-- ===== src/Maintenance/Blocks.antt =====
-- What keeps a vehicle off the road after a record is finished
-- (apps/api/src/maintenance/maintenance.service.ts).
use kruze.Base.{ℕ, ◌≡◌, Bool, not, ◌&&◌, some, List, [], ◌∷◌, ◌==◌, any, arith}
use kruze.Base.Rows.{update_row}
use kruze.Base.Effects.{ok}
use kruze.Domain.{AuthenticatedUser}
use kruze.Maintenance.{
  completed, cancelled, Record, Db, record_key, blocks, is_deployment_blocked,
  assert_vehicle_access, assert_record_access, complete, cancel,
}

others_block : ℕ → ℕ → List Record → Bool
others_block id vehicle = any (λ r. not (r.id == id) && blocks vehicle r)

completed_blocks :
    (id vehicle now : ℕ) (rows : List Record)
    → is_deployment_blocked vehicle (
        update_row record_key id
          (λ r. record r { status = completed; completed_at = some now })
          rows)
      ≡ others_block id vehicle rows
unfolding is_deployment_blocked others_block blocks
completed_blocks id vehicle now [] = ground arith
completed_blocks id vehicle now (r ∷ rows) = ground (arith, completed_blocks id vehicle now rows)

cancelled_blocks :
    (id vehicle : ℕ) (rows : List Record)
    → is_deployment_blocked vehicle
        (update_row record_key id (λ r. record r { status = cancelled }) rows)
      ≡ others_block id vehicle rows
unfolding is_deployment_blocked others_block blocks
cancelled_blocks id vehicle [] = ground arith
cancelled_blocks id vehicle (r ∷ rows) = ground (arith, cancelled_blocks id vehicle rows)

complete-blocks :
    (actor : AuthenticatedUser) (id now vehicle : ℕ) (db : Db)
    → (complete actor id now db).1 ≡ ok tt
    → is_deployment_blocked vehicle (complete actor id now db).0.records
      ≡ others_block id vehicle db.records
unfolding complete assert_record_access assert_vehicle_access
complete-blocks actor id now vehicle db h =
    ground (arith, completed_blocks id vehicle now db.records)

cancel-blocks :
    (actor : AuthenticatedUser) (id vehicle : ℕ) (db : Db)
    → (cancel actor id db).1 ≡ ok tt
    → is_deployment_blocked vehicle (cancel actor id db).0.records
      ≡ others_block id vehicle db.records
unfolding cancel assert_record_access assert_vehicle_access
cancel-blocks actor id vehicle db h = ground (arith, cancelled_blocks id vehicle db.records)

-- After a record is completed or cancelled, a vehicle is kept off the road exactly by the other open
-- records of it that block deployment.
finish-blocks :
    (actor : AuthenticatedUser) (id now vehicle : ℕ) (db : Db)
    → ((complete actor id now db).1 ≡ ok tt
        → is_deployment_blocked vehicle (complete actor id now db).0.records
          ≡ others_block id vehicle db.records)
      × ((cancel actor id db).1 ≡ ok tt
          → is_deployment_blocked vehicle (cancel actor id db).0.records
            ≡ others_block id vehicle db.records)
finish-blocks actor id now vehicle db =
    (complete-blocks actor id now vehicle db, cancel-blocks actor id vehicle db)
