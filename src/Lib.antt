-- ===== src/Lib.antt =====
-- The paper-trading core of MAAIS: orders, market data, fills, positions, the account and exit plans.
--
-- The parts and their files, with the sources they translate:
--   Domain      maais/domain/enums.py, and the datetimes and the guards that the modules share
--   Market      maais/execution/paper/market.py: book snapshots and trade prints
--   Clock       maais/execution/paper/clock.py: when an order becomes eligible, and for which event
--   Orders      maais/execution/paper/orders.py: `PaperOrder`, its calls and its event log
--   LimitQueue  the second half of that file: `LimitQueueState` and `advance_limit_queue`
--   Fills       maais/execution/paper/fills.py: `MarketFillEngine.fill`
--   Positions   maais/execution/paper/positions.py: FIFO lots of one symbol
--   Account     maais/execution/paper/account.py: cash and a position for each symbol
--   Exits       maais/execution/paper/exits.py: `ExitPlan`, its stop, target and holding time
--   Filters     maais/execution/paper/filters.py: steps, ticks and notional of an exchange
--   Ledger      maais/compliance/fifo_ledger.py: the lots of the tax record
--   Authorization  maais/execution/paper/authorization.py: capabilities to execute one proposal
--   Records     maais/execution/paper/records.py: the stored fill, the execution record, funding
--   Broker      maais/execution/paper/broker.py: an entry or an exit from its command to its record
--   Risk        maais/risk/official.py: Inputs has the policy and the request, Engine the decision and
--               the correlation gate, Sizing the size and the whole chain; Acceptable describes the trades
--               that should be approved
--   Integrity   maais/market_data/integrity/state_machine.py: Checks and Values have the eighteen
--               checks, Assessment the admission of a frame
--   Admission   maais/monitoring/admission.py: the six gates of a decision cycle
--   Lifecycle   maais/platform/lifecycle.py: readiness, stop and heartbeat of a service; a round of
--               the heartbeat is what its wait, the clock, the backend and the other tasks did in it
--   Quality     `QualityStatus` and the gate results that these three share
--   KillSwitch  maais/monitoring/kill_switch.py: the global halt
-- An order rests in a limit queue or is filled at market from a book; its fills open or close the
-- position of a symbol in the account; an exit plan watches the position and asks for the order that
-- closes it. The broker runs that chain for one approved proposal, behind its capability. Before it,
-- a frame of market data is admitted or quarantined, the monitoring admits the cycle, and the risk
-- engine sizes the trade; each is a chain of gates with a status and a reason.
--
-- Each method `x.f(args)` of a frozen dataclass is a function `f x args` to the new state or the
-- exception; a module's state is a record with the source's fields. A method of a mutable class is a
-- function to the state after the call.
--
-- Base has what the parts share: lists, exceptions (Base/Raise: `Result`, `raise_if` and the total
-- correctness `Ensures`) and integers. An exception is its class and a message; the text of an
-- f-string is shortened to its constant part. Decimal models `decimal.Decimal` at the default
-- context: a value is an integer number of quanta of 10^-64, and `add`, `sub`, `mul` and `div` round
-- half-even to 28 digits. Values are finite, so guards against NaN and infinities have nothing to
-- refuse, and results finer than a quantum are rounded to it. `round` drops digits on fuel; Decimal
-- and Decimal/Grid say how much is given. `units k m` is m steps of 10^k quanta: on such a grid,
-- within 28 digits, sums, differences and tests are exact, and the theorems on quantities are about
-- values on a grid, as the exchange's lot steps are.
--
-- A datetime is its microseconds and whether it is in UTC. Identifiers that are UUIDs are natural
-- numbers, and so are sequence numbers and latencies, whose guards against negative values have
-- nothing to refuse. Type tests of arguments have nothing to refuse either.
--
-- The signature of the claims of a capability is a field of `Signer`, beside its being ASCII, as a
-- hexadecimal text is, and the hash of a command's canonical JSON is a field of `PaperBroker`; details, snapshots and hashes of
-- gate results are left out. A symbol is a text of ASCII, so `upper` is a test of its letters. The
-- divisors of the risk engine and of the checks are positive for values that passed their validation.
-- `Decimal.sqrt` takes its root on 200 rounds of fuel, two bits each, enough below 10^50.
--
-- Not modelled: the consensus and the expected value of a decision, the building of a frame from
-- events, and the registration of services; floating-point analytics; persistence, the web API and
-- telemetry.
pub mod Base
pub mod Decimal
pub mod Domain
pub mod Orders
pub mod Market
pub mod Clock
pub mod LimitQueue
pub mod Fills
pub mod Positions
pub mod Account
pub mod Exits
pub mod Filters
pub mod KillSwitch
pub mod Ledger
pub mod Authorization
pub mod Records
pub mod Returns
pub mod Broker
pub mod Quality
pub mod Risk
pub mod Admission
pub mod Integrity
pub mod Lifecycle
