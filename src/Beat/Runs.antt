-- ===== src/Beat/Runs.antt =====
-- beat.py: what a part of a step did, and parts one after the other.
use celery_diagnostics_obser.Prelude.{Bool, Option, none, some, List, [], ◌∷◌, ◌++◌}
use celery_diagnostics_obser.Result.{Result, ok, err}
use celery_diagnostics_obser.Values.{Value, null, dict, Fields}
use celery_diagnostics_obser.Transport.{ObserverTransport, Outcome}

-- What a part of a step did: its result, the batches that it posted, and the transport after it.
pub record Run : Type 0 where
  pub result : Result Value
  pub posted : List (List Fields)
  pub transport : ObserverTransport

abbrev pub carry_on :
    Result Value → List (List Fields) → ObserverTransport → (ObserverTransport → Run) → Run
carry_on (err e) posted t rest = record { result = err e; posted = posted; transport = t }
carry_on (ok v) posted t rest =
    let r = rest t in
    record { result = r.result; posted = posted ++ r.posted; transport = r.transport }

-- the rest follows unless the first part raises
unfoldable pub and_then : Run → (ObserverTransport → Run) → Run
and_then r rest = carry_on r.result r.posted r.transport rest

abbrev pub ends : Result Value → ObserverTransport → Run
ends result t = record { result = result; posted = []; transport = t }

abbrev pub batch_list : Option (List Fields) → List (List Fields)
batch_list none = []
batch_list (some batch) = batch ∷ []

abbrev pub none_of : Result Bool → Result Value
none_of (err e) = err e
none_of (ok b) = ok null

abbrev pub run_of : Outcome → Run
run_of o = record { result = none_of o.result; posted = batch_list o.posted; transport = o.state }

-- a flush whose exception is logged
abbrev pub flushed : Outcome → Run
flushed o = record { result = ok null; posted = batch_list o.posted; transport = o.state }

abbrev pub payload_value : Option Fields → Value
payload_value none = null
payload_value (some payload) = dict payload
