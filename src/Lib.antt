-- ===== src/Lib.antt =====
-- FMMS is a fleet maintenance system: a Django service that follows a vehicle from a reported fault
-- through a repair order to the hand-over to its driver, and tells SAP of it. This library models
-- the core of it: the aggregates of the domain with their state machines, the services that change
-- a repair order and what hangs on it, and the manager of the calls to SAP. Paths are from the
-- repository's root.
--
-- The parts and how they interact. A service loads an aggregate, calls one of its methods, which
-- may raise, and saves it. So a method is a `Method S E A` of Prelude/Calls.antt, from the object
-- to a result and the object: a field that was written before a raise stays written. `do`, `when`,
-- `raise`, `get` and `modify` read as the statements of the source. `datetime.now` and `uuid.uuid4`
-- are arguments. The name of a definition is that of the method or constant that it models.
--
-- Repair: the aggregate `RepairOrder` of apps/repair/domain/entities.py. Repair/Status has the
--   statuses and the tables, Repair/Order the record and the methods on its status,
--   Repair/Order/Items those on its activities and parts. Repair/Lifecycle makes a call a value and
--   runs a list of calls, raising or not; Repair/Consistent, Repair/Closing and Repair/Failure hold
--   the proofs about them, Repair/Activities and Repair/Parts those about the changes of activities
--   and parts, with runs in Repair/Edits. Repair/Values has the checks of `PartQuantity` and
--   `LaborHours`, Repair/Event the entries of the timeline, Repair/Identity which fields no method
--   changes. Repair/Costs is the cost of an internal repair and the invoice of an external one,
--   Repair/External the assignment of an external workshop with its delivery, pickup and review,
--   each from its file in apps/repair/domain. Repair/Fits says what a status asks of the data;
--   Repair/Referral is the request to send a repair to an external workshop, of the same
--   file as the aggregate.
-- Integration: infrastructure/sap/transaction/sap_transaction_manager.py over apps/integration.
--   Integration/Transaction is the aggregate `SAPTransaction`, Integration/Repository its table as
--   a list of rows, Integration/Manager the manager: `execute`, `retry` and `retry_all_pending`
--   over a `Gateway`, which is the table and a record of the calls that reached SAP. The adapter is
--   code outside the model: any function from a payload to an answer, to `SAPIntegrationError` or
--   to another exception. Integration/Budget and its children count the calls, Integration/Replay
--   shows what a repeated key does. A write to the table stays when the manager raises: the
--   transaction of the database around a web request is modelled for the services, in
--   Workflow/Requests, alone.
-- Vehicle: apps/vehicle/domain. Vehicle/Status, Vehicle/Entity (construction and methods),
--   Vehicle/Values (value objects; `str.strip` is in Prelude/Strings, `str.isdigit` a parameter)
--   and Vehicle/Lifecycle, which has the two guarded transitions of the services in
--   apps/repair/application/services/transport_handover_decision_service.py too.
-- Fault: apps/fault/domain, with `_close_open_fault` of the same service. Fault/Values has the
--   value objects, Fault/Report what a report makes of its payload
--   (apps/fault/application/services/report_fault_service.py), Fault/Payload and Fault/Kept the
--   proofs about it.
-- Inspection: apps/inspection/domain, the checklists; Inspection/Frozen runs lists of calls.
-- Driver: apps/driver/domain/entities.py, with the query by personnel number of
--   apps/driver/infrastructure/repositories.py.
-- Handover: apps/handover/domain/entities.py.
-- Procurement: apps/procurement/domain, requisitions, purchase orders and value objects.
-- Maintenance: apps/preventive_maintenance. Maintenance has the work orders, Maintenance/Plan the
--   plans, Maintenance/Services the services over a store of their own with the tables of plans,
--   work orders and vehicles; Maintenance/OneActive and Maintenance/Requests hold the proofs about
--   the number of active work orders of a plan.
-- Material: apps/material/domain/entities.py, the requests for material.
-- Workflow: the services of apps/repair, apps/handover, apps/fault, apps/inspection, apps/material
--   and apps/procurement that change a repair order or what leads to it or hangs on it, over one
--   database. Workflow/Table is a table with its
--   deletion flag and the queries that the repositories run, Workflow/Stored the columns that each
--   `save` writes, Workflow/Database the tables, the errors and the loads and saves, Workflow/Steps
--   the steps that services share. A service is a method over the database, in the file of its
--   group: Transport (approve_repair_order_service.py, transport_handover_decision_service.py),
--   Handovers, Distribution (close_fault_service.py, distribution_fault_decision_service.py,
--   create_repair_order_service.py), Workshop (update_repair_status_service.py), Decision
--   (workshop_technical_decision_service.py, sync_repair_to_sap_service.py), Editing, External,
--   Delivery and Review (external_workshop_service.py), Invoices, Materials, Faults
--   (report_fault_service.py, assign_fault_service.py), Inspections (the services that create, fill
--   and submit a checklist), Checklist (report_inspection_fault_service.py), Purchases (the services
--   of a requisition), Receipts (receive_po_from_sap_service.py) and Parts
--   (parts_availability_decision_service.py). Workflow/Requests
--   makes a request a value, says what it leaves in the database, with the transactions of
--   interfaces/api/v1/repair/views.py, and runs a list of requests.
--   Workflow/Frame has the rules for what a service does to one table, Rules, Advance, Quiet, Change
--   and the children of OneOrder the proofs about the number of open orders of a fault, OneFault
--   those about the number of open faults of a vehicle, OneReceipt those about the number of
--   purchase orders of a requisition, Reload those about the tables; Saved, Success, Commits,
--   Refusals, Reported, Failures, Lines and Stock, with Settled, Decided and Requested, those about
--   single services.
-- OpenFlow: core/workflow/vehicle_open_flow.py, the guard of one open fault or repair for each
--   vehicle, with its queries on the tables of faults and repair orders.
-- Each part has an Examples module with runs of the model, the services two more,
-- Workflow/ReportExamples and Workflow/ReceiptExamples; Workflow/Samples holds the data of those on
-- the services.
--
-- Values. A `uuid.UUID` and a `datetime` are natural numbers, a `str` the list of its code points,
-- a `Decimal` its sign, digits and exponent, a `dict` read from JSON the data type of
-- Prelude/Json.antt. An `X | None` is an `Option`. All loops are structural recursion over a list,
-- so no fuel is needed.
--
-- Outside the model, as parameters of the services: how the manager of SAP answers for an order and
-- its vehicle, the request for a replacement vehicle, how Python reads the items of a review, two
-- sentences in Persian, how the manager answers for a notification, a measurement and a requisition,
-- the last reading of the odometer, the central stock, what Python knows of characters (`str.upper`,
-- `str.isalnum`, `str.isdigit`), the ids that `uuid.uuid4()` makes, and the time, which is read once
-- for a request. The repositories that a service takes as optional are given. An entry of the timeline
-- has no text.
--
-- Not modelled: services that only list or load, the mapping to response objects, the templates
-- and the score of a checklist, the documents of goods, the runs of the synchronisation with SAP,
-- the SAP clients, the REST interface,
-- reports, authentication and the front end; log lines; the sums of `decimal`; and, of the database,
-- the errors of constraints other than a primary key (`IntegrityError` where two hand-overs have one
-- order, two deliveries, pickups or reviews one assignment, or two vehicles one number), the rounding
-- and the overflow of a decimal column, which are the identity here, and the update of an item of
-- another fault by its id.
pub mod Driver
pub mod Fault
pub mod Handover
pub mod Inspection
pub mod Integration
pub mod Maintenance
pub mod Material
pub mod OpenFlow
pub mod Prelude
pub mod Procurement
pub mod Repair
pub mod Vehicle
pub mod Workflow
