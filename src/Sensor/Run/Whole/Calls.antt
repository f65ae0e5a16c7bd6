-- ===== src/Sensor/Run/Whole/Calls.antt =====
-- What `run` has asked of its socket when it returns.
use linux_sensors.Base.{◌≡◌, List, [], ◌++◌, Bool, true, false, Bytes}
use linux_sensors.Base.Int.{ℤ}
use linux_sensors.Socket.{Call, LinuxServerSocket, send_server, close_server}
use linux_sensors.Sensor.System.{System}
use linux_sensors.Sensor.Run.{over}
use linux_sensors.Sensor.Run.Whole.{
  RunPhase, opening, joining_reader, joining_sender, joining_worker, looping, closing, returned,
  Whole,
}

-- The last calls send a text, on a socket that they then close.
abbrev pub IsClosed : List Call → Type 0
IsClosed calls =
    (front : List Call) × (summary : Bytes) × (s : LinuxServerSocket) × (calls
      ≡ front ++ (send_server summary s ++ close_server s))

-- What is left of the socket without and with logging.
abbrev pub IsDone : Bool → List Call → Type 0
IsDone false calls = calls ≡ []
IsDone true calls = IsClosed calls

module _ (pids : List ℤ) (socket : LinuxServerSocket) where
  -- Behind the loops the socket is closed; without logging it was not used.
  abbrev Called : Bool → RunPhase → List Call → Type 0
  Called true (looping m) calls = m.phase ≡ over → IsClosed m.calls
  Called true opening calls = Unit
  Called true closing calls = IsClosed calls
  Called true returned calls = IsClosed calls
  Called true joining_reader calls = ⊥
  Called true joining_sender calls = ⊥
  Called true joining_worker calls = ⊥
  Called false (looping m) calls = ⊥
  Called false opening calls = calls ≡ []
  Called false joining_reader calls = calls ≡ []
  Called false joining_sender calls = calls ≡ []
  Called false joining_worker calls = calls ≡ []
  Called false closing calls = calls ≡ []
  Called false returned calls = calls ≡ []
