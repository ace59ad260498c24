-- ===== src/Lib.antt =====
-- GuardTrak API: attendance, breaks, patrols and incidents of security officers, as a NestJS service
-- over a PostgreSQL database. This library models the parts that decide what a request may do and what
-- it leaves in the tables. Paths are from the repository's root.
--
-- The parts, and where they are modelled:
--   * Errors, Text, Common: src/common. A handler that throws an `AppException` returns `err`. Common/
--     Tenant has the tenant and permission checks of src/common/tenant/tenant.util.ts, Common/Pagination
--     the pages of src/common/utils/pagination.util.ts and src/common/dto/pagination-meta.dto.ts.
--   * Transitions: the status tables, src/modules/*/*-transitions.util.ts. A table is a test of two
--     statuses; an entry that is absent is `false`. Transitions/Paths has the histories of a status.
--   * Calendar, Timezone: src/common/utils/timezone.util.ts.
--   * Attendance: src/modules/attendance. Calculation is attendance-calculation.service.ts, Geofence is
--     geofence.service.ts, and Lookup, Review and Correct are requestReview, approve, reject, correct and
--     voidAttendance of attendance.service.ts. A handler goes from the tables (`Db` of Database) to the
--     row it answers with and the new tables. ClockIn and ClockOut are clockIn and clockOut: the checks
--     up to the transaction, and in their Perform the transaction and the idempotent call. Presence has
--     what the two share, and asks Shifts/Recurrence for the occurrence that is worked.
--   * Assignments: src/modules/assignments. Checks and Access are the checks of assignments.service.ts and
--     assignment-access.service.ts; Create has create and createBatch, Status has updateStatus, confirm
--     and cancel, and Reassign has reassign. They work on the tables of Attendance: clocking in and out
--     moves the assignments that these operations make (Assignments/Clocking, Histories/Bookings). The
--     overlap of shifts is that of Shifts.
--   * Auth: src/modules/auth, on tables of its own (Auth/Tables). A handler writes also where it throws,
--     so it goes from the tables to an answer and the new tables. Sessions is session.service.ts,
--     LoginDevices is device-auth.service.ts, Login and SignIn are login, Refresh has refresh, logout,
--     logoutAll and validateAccessUser, Reset has forgotPassword, verifyOtp and resetPassword with
--     password-reset.service.ts, Passwords has changePassword. What a request may do to the sessions is
--     one of four moves (Auth/Families), which Auth/Requests finds in each handler.
--   * Devices: updateStatus and retire of src/modules/devices/devices.service.ts.
--   * Breaks: src/modules/breaks/breaks.service.ts. Start, End and Cancel are its operations, with the
--     checks in Guards. They recompute the break minutes of the attendance, which the review, the
--     correction and the clock-out of an attendance read and write too; Histories puts all of them
--     together.
--   * Idempotency: src/common/idempotency. Store is prisma-idempotency.store.ts, Service is
--     idempotency.service.ts with the block in which the services wrap an operation, which Breaks and
--     Attendance use.
--   * Shifts: Schedule is src/modules/shifts/shift-validation.util.ts and src/modules/assignments/
--     assignment-overlap.util.ts, Recurrence is src/modules/shifts/shift-recurrence.util.ts.
--   * Patrols: src/modules/patrols/patrol-progress.service.ts.
--   * Queues: src/infrastructure/queues/in-memory-queue.service.ts. The event loop is a step relation: a
--     callback of setImmediate, a processor that returns or throws. Termination is about the calls that work
--     on jobs, Settling about the loop in which nobody enqueues.
--   * Redis: src/infrastructure/redis/memory-redis.fallback.ts.
--   * Tests has one application of every result at concrete data.
--
-- Conventions. A UUID and a text that is only compared are numbers. A Date is its milliseconds since the
-- epoch, none of them before it; a difference of two is an integer where the code needs one, and numbers
-- are small enough for JavaScript's arithmetic to be exact. A table is the list of its rows; findFirst
-- takes the first that fits, as it does up to the order that the database chooses. The clock and new
-- identifiers are arguments (`Call`). What is outside the repository is a parameter without laws
-- (`Environment`): the configuration, `trim`, the hash of a payload, the message of an error, the
-- distance of two positions. What `Intl.DateTimeFormat` knows of zones is the parameter `Intl`; theorems
-- that rely on it name what they rely on (`IsCalendar`, `HasFixedOffset`). A date key is its year, month
-- and day, for the years 0 to 9999. A row that a foreign key names is taken to be there. A handler is one
-- step: requests are taken one after the other. The statements of two requests interleave in the model
-- only in the idempotency store; in the database they can elsewhere too, as in `performStart`, which looks
-- for an active break and inserts one outside a transaction. The loop over the days of a range has the
-- number of these days as fuel, which a theorem shows to be enough; the other loops run over lists.
--
-- Not modelled: the services over the status tables of patrols, incidents, emergencies and shifts; of Auth
-- the hashes, random tokens, the signing of access tokens and the rules of a password, which are parameters
-- (`AuthEnvironment`, `AuthCall`); two refreshes with one token at the same time; reads and response mappers; distances on the sphere and rounded hours, which are floating
-- point; what delivers to the outside (email, push, storage, realtime) and the glue of the framework.
-- Break hours or seconds with a fractional part are not among the inputs of the calculation.
pub mod Assignments
pub mod Attendance
pub mod Auth
pub mod Breaks
pub mod Calendar
pub mod Common
pub mod Database
pub mod Devices
pub mod Environment
pub mod Errors
pub mod Histories
pub mod Idempotency
pub mod Patrols
pub mod Prelude
pub mod Queues
pub mod Redis
pub mod Shifts
pub mod Tests
pub mod Text
pub mod Timezone
pub mod Transitions
