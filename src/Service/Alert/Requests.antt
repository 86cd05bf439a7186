-- ===== src/Service/Alert/Requests.antt =====
-- The requests of the alert service that change something.
use orchestrix_api.Common.{List, [], ◌∷◌}
use orchestrix_api.Domain.Values.{Uuid}
use orchestrix_api.Domain.Alert.{Alert}
use orchestrix_api.Port.Inputs.{CreateAlertInput}
use orchestrix_api.Port.Call.{Ports, History}
use orchestrix_api.Port.Action.{Action}
use orchestrix_api.Service.Alert.{create, acknowledge, resolve}

pub data Request : Type 0 where
  creating : CreateAlertInput → Request
  acknowledging : Uuid → Uuid → Request
  resolving : Uuid → Uuid → Request

abbrev pub perform : Ports → Request → Action Alert
perform p (creating input) = create p input
perform p (acknowledging id user) = acknowledge p id user
perform p (resolving id user) = resolve p id user

-- A sequence of requests, each from the history that the one before it left; a failed request does
-- not stop the next.
abbrev pub perform_all : Ports → List Request → History → History
perform_all p [] h = h
perform_all p (r ∷ rs) h = perform_all p rs (perform p r h).1
