-- ===== src/Lib.antt =====
-- micromdm, a server for Apple's device management protocol (MDM), in Go.
--
-- The program. An administrator queues commands for a device (command/) and manages profiles,
-- workflows and inventories (management/). A device enrolls through /mdm/checkin (checkin/), which
-- stores its tokens (device/) and asks Apple to notify it. It then calls /mdm/connect (connect/): when
-- it is idle it gets the next command of its queue, and it reports the result of each, which takes the
-- command out of the queue and may store an inventory (application/, certificate/). The queues are
-- lists in Redis, everything else is in PostgreSQL. main.go puts the services together.
--
-- How the code is modelled. A Go function that does I/O is an `Action W A`, from a world `W` to a
-- result and the next world (Base/Go): a value, an error, or a panic. What is not code of the
-- repository is a parameter. Redis, PostgreSQL, Apple's services, the clock, and the maker of payloads
-- are records of calls over `W` (Services/Redis, Services/Sql, Main/Server); property lists, JSON and
-- the check of push tokens are functions (Mdm, Main/Server). An SQL statement is data with the columns
-- of its text. Pointers to structs are values, since no struct is shared between two requests.
--
-- What is assumed. Services/Backend is a reference model of the keys of Redis and the tables of
-- PostgreSQL, with the unique columns, defaults and references of migrations/ (Services/Schema). A
-- world is lawful where, as long as its services answer, every call returns what the model returns and
-- changes what can be seen of the world as the model does (Services/Lawful). The model satisfies this
-- itself, and the tests run in it.
--
-- The columns of the model have no types. What migrations/ asks of single values (the syntax of a
-- `uuid`, NOT NULL, CHECK, the day of a `date`) is not in the model, and neither are the primary keys
-- other than that of workflow_profile, nor UNIQUE (name, version) of applications. A real PostgreSQL
-- behaves like the model on values that respect these types; the hypothesis is stated for every value.
-- Where the code or a result depends on them, the statement does not use the model: Certificate/Atomic
-- lets any statement fail, and Main/Fetch leaves the columns of type `date` open.
--
-- Files and code.
--   Base, Services, Mdm   shared helpers, the services, the structs of libraries
--   Command               command/datastore.go, command/service.go, command/endpoint.go,
--                         command/transport.go; Queue and Cycle over the model, Laws over a lawful
--                         Redis, Replies
--   Device                device/device.go (Model, Columns), device/datastore.go; Laws and Keeps over
--                         the model, Refinement over a lawful PostgreSQL
--   Workflow              workflow/; Links on the profiles of a workflow, Tables and LinkRows on the
--                         table of links in the model
--   Certificate           certificate/; Atomic is about the transaction of a replacement
--   Application           application/
--   Http                  replies as the calls of an http.ResponseWriter, the encoders that the
--                         transport.go files share, and go-kit's server
--   Management            management/service.go; Endpoint and Shape for management/endpoint_*.go,
--                         Transport and Routes for management/transport.go; Replies, Missing,
--                         Conflict, Inventory and Matching on what a client gets
--   Checkin               checkin/service.go, checkin/endpoint.go, checkin/transport.go; Replies
--   Connect               connect/service.go, connect/endpoint.go, connect/transport.go; Replies
--   Enroll                enroll/; Links on how the payloads refer to each other, Unique on their UUIDs
--   Main                  main.go, lines 157 to 218 (Server), and the services working together:
--                         Queue, Drain, Configuration and Failure on the queue, Unknown on a command
--                         without payload, Authentication, Fetch, Enrollment, Checkout and Columns on
--                         the device's row, Inventory on its applications, Rows for both, Wire on a
--                         conversation over HTTP, Refinement on the transfer from the model
--   Startup               main.go from the flags (Flags) to a server that listens (Main), over what it
--                         calls of the system (System); NewDB of every package (Stores) with its loop
--                         of pings (Retry); Bounds and Unreachable on that loop, Configured on the
--                         flags, Ready on a server that listens, with Outcome, Steps and Served
--   Tests                 the theorems at a server with one device, at replies of a concrete go-kit
--                         server, and at systems whose stores answer or do not
--
-- HTTP. A handler's effect on its ResponseWriter is the list of its calls, and `status` is the status
-- that a client gets for them, of which IsStatus states what net/http documents. What go-kit's server
-- does with a decoder, an endpoint and encoders is Kit, with IsKit for its documentation (Http/Server).
-- JSON and property lists are functions on values of any type. In the start of a server, os.Exit is an
-- outcome, and what the operating system and libraries do is the record System (Startup/System).
--
-- Bounds. A loop over a list is recursion on it. The loop that waits for a store counts its attempts
-- up to 20 and has fuel for 21 rounds: those of the attempts, and the one that ends it. Other numbers
-- are lengths, sizes and instants that the code never computes with, so no wrap-around is modelled. The
-- expiry of Redis keys is not played out: a key's time to live is recorded where it is set.
--
-- Not modelled: logging and printing, the loop of ListenAndServe with the CORS middleware and the
-- Prometheus handler, and vendored libraries.
pub mod Base
pub mod Http
pub mod Services
pub mod Mdm
pub mod Command
pub mod Device
pub mod Workflow
pub mod Certificate
pub mod Application
pub mod Management
pub mod Checkin
pub mod Connect
pub mod Enroll
pub mod Main
pub mod Startup
pub mod Tests
