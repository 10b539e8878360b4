-- ===== src/Operations/Dispatch.antt =====
-- `dispatch` of src/aurora_bot/operations/registry.py, as a machine that goes from one `await` to
-- the next. Any number of calls are under way, and between two awaits of one the others go on.
-- Of the world journal the machine has what operations write: for each identity of a request the
-- commit `{identity}:requested` and the commit `{identity}:result`. What a handler does is the
-- environment's; the codecs of src/aurora_bot/operations/requests.py and receipts.py are
-- parameters here, and so is the digest that identifies a request.
mod State
mod Stages
mod Slots
unfoldable pub use State.*
unfoldable pub use Stages.*
unfoldable pub use Slots.*
