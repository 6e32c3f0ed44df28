-- ===== src/Lib.antt =====
-- Kruze: employee transport for corporates and their vendors (a NestJS API over a PostgreSQL database,
-- apps/api). This library models the services that decide who may travel, with which driver, vehicle and
-- guard, on which trip, and what is paid for it, and shows what those services guarantee.
--
-- How the parts interact. Employees are booked on shifts (roster). For a shift and a day the planner
-- groups the demand and orders the stops (planning/geo-routing.ts), checks the safety policy (safety), and
-- looks for a vendor's vehicle, driver and guard that are compliant (compliance), not in the workshop
-- (maintenance) and free; it creates and assigns the trips, raises exceptions, and the plan is published
-- (planning/planning.service.ts). A trip then passes through its state machine (trip); passengers are
-- verified by one-time codes (otp); a breakdown is answered by a replacement (incident/operations).
-- Completed trips are charged, invoiced and paid (billing, driver-payment). Organisations are onboarded
-- and subscribe to plans, employees sign up to them, relationships connect them, approvals run through
-- workflow, and a guard for roles and a policy service let requests through (authz).
--
-- Which file models what (paths from the repository's root; a parent names its child modules):
--   Base           shared: Boolean tests, lists, rows of a table with the queries made of them
--                  (Base/Rows), exceptions and transactions (Base/Effects)
--   Domain         packages/domain/src/role.ts, apps/api/src/common/request-context.ts
--   Trip           apps/api/src/trip/trip-state-machine.ts (Machine), trip.service.ts: rows (Store),
--                  create, transition and the route's acceptance (Service), assign (Assign)
--   Otp            apps/api/src/otp/otp.service.ts: generate, findPending, verify, override (Service)
--   Compliance     apps/api/src/compliance: compliance.service.ts and applicableRules of
--                  compliance-rule.service.ts; document.service.ts, resource-ownership.util.ts and
--                  the creation of rules (Documents)
--   Safety         apps/api/src/safety/safety.service.ts
--   Roster         apps/api/src/roster/roster.service.ts: one entry and the lock (Service), many (Bulk);
--                  shift.service.ts (Shifts)
--   Maintenance    apps/api/src/maintenance/maintenance.service.ts
--   GeoRouting     apps/api/src/planning/geo-routing.ts: clusterByProximity (Clusters) and
--                  orderRouteByDistance (Route)
--   Planning       apps/api/src/planning/planning.service.ts: findEligibleVehicle, findEligibleDriver,
--                  findEligibleGuard, isBusy (Search); the rows of a plan (Plans); planGroup and
--                  recordDecisionLog (Group); generate (Generate); publish (Publish). Fit says which
--                  crew fits, Days runs calls of both handlers one after another
--   Billing        apps/api/src/billing/invoice.service.ts (Invoicing, Doubles, Payables), trip-charge.service.ts with
--                  findEffectiveRateCard of apps/api/src/contract/contract.service.ts (Charges), and
--                  apps/api/src/driver-payment/driver-payment.service.ts (Vouchers)
--   Contract       apps/api/src/contract/contract.service.ts
--   Tracking       apps/api/src/tracking/tracking.service.ts
--   Ev             apps/api/src/ev/ev.service.ts
--   Fleet          apps/api/src/driver/driver.service.ts, of which guard/guard.service.ts is a copy
--   Incident       apps/api/src/incident/incident.service.ts; operations.service.ts (Operations)
--   Workflow       apps/api/src/workflow/workflow.service.ts
--   Relationship   apps/api/src/relationship/relationship.service.ts
--   Organisation   apps/api/src/organisation: global-id.util.ts (Ids), organisation.service.ts (Tenants)
--   Authz          apps/api/src/authz: policy.service.ts; roles.guard.ts with the role groups of
--                  packages/domain/src/platform-permission-matrix.ts (Roles, Matrix)
--   Subscription   apps/api/src/subscription/subscription.service.ts; Account is the abstract life of one
--                  organisation's subscription
--   Employee       apps/api/src/employee/employee.service.ts
-- The Samples modules, and Planning/Trial, apply each result to concrete tables.
--
-- How the code is read. A handler is a function from the tables to the tables and a result, an
-- exception being a value of Error; it keeps the name of the method in lower case. The tables are lists
-- of rows, newest first, and the identifiers that the database generates are numbers from a counter.
-- The clock, random codes, argon2, the distance between two points and the answer of the optimizer
-- service are arguments. What a transaction leaves behind when its body throws is a parameter with
-- Prisma's documented promise that it rolls back (Base.Effects.Transactions). A handler runs alone:
-- interleavings are modelled only where a theorem names two calls that read the same row. Texts are
-- numbers, times are milliseconds, dates are days, and amounts are exact hundredths (a charge's tax in
-- hundredths of those). The comparison of a claim with a charge in addLine is made on the binary floating
-- point numbers of the two (Billing/Doubles); elsewhere their rounding, and that of decimal columns, is
-- left out. Messages to Kafka are entries of an outbox; other notifications, and failures of the database itself, are left
-- out.
--
-- Fuel. The loops of clusterByProximity have a round of fuel for each employee, which is enough because
-- each round places one. The 2-opt loop takes its fuel as an argument and ends within one round more
-- than the length of the first tour, because each round that goes on shortens the tour; planGroup gives
-- it that number of rounds. The digits of a sequence number n are written with n + 1 rounds, each of
-- which divides by ten. The spacing of the doubles about an amount of n hundredths is sought in n rounds,
-- each of which doubles it (lemma double_fits of Billing/Doubles/Bounds).
--
-- Not modelled: identity and sessions, the vehicles', locations' and zones' own tables, the platform
-- administration, audit, analytics and the list queries, which are row updates or reports; the web and
-- mobile applications and the optimizer service, which call the API or are called by it; controllers,
-- message queues and migrations, which are input and output.
pub mod Base
pub mod Domain
pub mod Compliance
pub mod Trip
pub mod Otp
pub mod GeoRouting
pub mod Safety
pub mod Roster
pub mod Maintenance
pub mod Organisation
pub mod Authz
pub mod Subscription
pub mod Employee
pub mod Contract
pub mod Tracking
pub mod Ev
pub mod Fleet
pub mod Planning
pub mod Incident
pub mod Workflow
pub mod Relationship
pub mod Billing
