-- ===== src/Lib.antt =====
-- A verification library for the services of SweetOps, the point-of-sale backend under apps/api/app:
-- its stock, money, orders, staff sessions and menus.
--
-- The program. A FastAPI backend keeps the orders of several stores in PostgreSQL. Each request is
-- one transaction of a service function: it checks its arguments, takes row locks in a fixed order,
-- re-checks an idempotency key, changes summary rows, appends ledger and audit rows, and commits.
-- Stock (services/inventory_service.py) is promised to an order when it is placed, leaves the shelf
-- when the kitchen takes the order up, and is given back when it is cancelled before that; staff
-- receive, adjust, waste, transfer and count stock and set its alert thresholds. Payments
-- (services/payment_service.py) are settlements that allocate money to orders, and refunds that give
-- it back, at the till or when an issue is resolved (services/order_issue_service.py). Guests order
-- through a table's QR token (services/qr_token_service.py, order_service.py), and a cashier's shift
-- (services/cashier_shift_service.py) reconciles a drawer with the payments. Staff log in to sessions
-- (services/auth_service.py), which every staff endpoint checks (core/deps.py), and set up their
-- branch's menu (services/store_setup_service.py).
--
-- The files.
--   Base, Int, Text, Quantity, Digest: library names, HTTP results, integers over the native
--     numbers, Python text, `quantize` (q2, q3) and the canonical JSON that is hashed.
--   Inventory/Model: the rows of models/ingredient.py, ingredient_stock.py, inventory_transfer.py,
--     inventory_stock_count.py and inventory_threshold.py, as the state `Inventory`.
--   Inventory/Books: what a shelf, the ledger and the orders' lines say, and `IsConsistent`, the
--     invariant in which the three agree.
--   Inventory/Lifecycle: check_availability, reserve_for_order, consume_order and
--     release_order_reservation; Body, Settle and Orders below it are about the last two.
--   Inventory/Commands, Manual, Transfer, Count, Threshold: the staff commands, each from the
--     request's fields to the committed tables; Effect, Outcome, Replay, Frame and Ladder below them
--     hold what they do and what they leave alone.
--   Payment/Model: the rows of models/order.py, payment_settlement.py, payment_allocation.py and
--     payment_refund.py, as the state `Ledger`.
--   Payment/Summary, Payment/Collect: the order's summary; _do_collect; in Collect/Commands,
--     collect_settlement and collect_order_payment.
--     Payment/Refund: refund_allocation and create_issue_refunds; Linked, Distribute, Outcome, Issued
--     and Replay below it hold the books that they keep.
--   Ordering: create_order of services/order_service.py, over the catalog, models/order_item.py and
--     models/order_item_ingredient.py; Basket is what a basket needs, Placing and Repeat what an
--     order leaves and what its retry does.
--   Qr: the tokens of models/table_qr_token.py and the commands of services/qr_token_service.py.
--   Issue: the rows of models/order_issue.py; Create and Resolve are create_issue and resolve_issue
--     of services/order_issue_service.py, which meet the refunds, the orders and the stock in one
--     state; Cancel, Decide, Outcome and Replay are about the latter.
--   Kitchen: update_order_status of services/kitchen_service.py, on the rows of models/order.py and
--     models/order_status_event.py and on the stock tables; Kitchen/Steps has the state machine as a
--     step relation, Kitchen/Stock what sequences of requests do to the stock, Kitchen/Closed what
--     they do to an order that has ended.
--   Shift: the rows of models/cashier_shift.py and compute_shift_totals of
--     services/cashier_shift_service.py; Commands has open_shift and close_shift; Sums and Cash are
--     about the totals, OneOpen and Close about the commands.
--   Auth: the rows of models/user.py and models/auth_session.py, and the login's parts of
--     services/auth_service.py and core/security.py; Sessions has authenticate and the session
--     commands, Permissions the matrix of core/permissions.py, Guard require_permission of
--     core/deps.py; Authorised, Lockout, Kept and Revoked are about them. A login reads its row
--     without a lock, so Moves has it in two halves, between which other logins run.
--   Setup: the rows of models/product.py and store_product.py, on_customer_menu, and
--     list_menu_products of services/menu_service.py; Menu has the menu commands of
--     services/store_setup_service.py; Branches, Changes, Isolation and Published are about them.
--   Tests: runs on small tables.
--
-- The model.
--   Decimal columns are whole numbers of their last place: thousandths of a unit of stock,
--   hundredths of money. Python's Decimal is exact at these sizes, and a bound on the columns'
--   digits is not modelled. Decimal's negative zero is not told from zero.
--   A handler is a function from the tables to a value with the new tables, or to an HTTP error,
--   upon which nothing is committed. The tables that a unique constraint keys are maps; the others
--   are lists, newest first, but the order lines, which stand in the order in which they are locked.
--   What other transactions commit is an argument: `Race` says what the tables become while the
--   command waits for its locks and between its re-check and its insert. An IntegrityError is the
--   unique index that finds the key taken at the insert. `IsFair` asks of the others that they keep
--   the tables in agreement (stock consistent and explained, payments balanced) and leave the
--   locked rows alone, which is what the database's row locks give.
--   hashlib's SHA-256 is a parameter: no theorem needs a property of it. So are Argon2, letter
--   case, and the settings of core/config.py, in `Primitives` and `Settings`.
--   Loops are structural recursion over the rows, so that every function is total and no fuel is
--   needed.
--   The kitchen's clock is in microseconds and its undo window is 60 seconds.
--   Logging, IP addresses, the JSON details of audit rows, timestamps that nothing reads, and the
--   receipts' display fields are left out.
--
-- Not modelled: the kitchen's queue and its signals; analytics, which is SQL aggregation; the setup
-- of tables, and the menu's stock and ranking; the origins of WebSocket handshakes; routers,
-- schemas, migrations, the web frontends and the data pipeline, which are glue around these services.
pub mod Base
pub mod Int
pub mod Text
pub mod Quantity
pub mod Digest
pub mod Inventory
pub mod Payment
pub mod Kitchen
pub mod Issue
pub mod Shift
pub mod Auth
pub mod Setup
pub mod Qr
pub mod Ordering
mod Tests
