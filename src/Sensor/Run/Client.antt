-- ===== src/Sensor/Run/Client.antt =====
-- What the end of the loops of `run` with logging takes: a client, and the flag `finished`.
use linux_sensors.Base.{
  ◌≡◌, ◌⊎◌, inl, inr, refl, sym, subst, List, [], ◌∷◌, ◌++◌, append_assoc, append-nil, Bool, true,
  false, Bytes,
}
use linux_sensors.Socket.{
  Call, LinuxServerSocket, ListenReplies, listen_server, send_server, close_server, minus_one,
}
use linux_sensors.Sensor.Status.{status_shown}
use linux_sensors.Sensor.Run.{
  MainPhase, listening, serving, reporting, testing, over, Event, listened, saw, sent, caught, Main,
  after_listen, main_step, main_loop,
}

abbrev pub Occurs : (Event → Type 0) → List Event → Type 0
Occurs P [] = ⊥
Occurs P (e ∷ events) = P e ⊎ Occurs P events

-- A `listen` that accepts a client, and a test of `finished` that finds it up.
abbrev pub IsConnected : Event → Type 0
IsConnected (listened replies) = (s : LinuxServerSocket) × ((listen_server replies s).0 ≡ true)
IsConnected _ = ⊥

abbrev pub IsFlag : Event → Type 0
IsFlag (saw finished) = finished ≡ true
IsFlag _ = ⊥

module _ (P : Event → Type 0) where
  Occurs-more : (seen events : List Event) → Occurs P seen → Occurs P (seen ++ events)
  Occurs-more [] events h = absurd h
  Occurs-more (e ∷ seen) events (inl h) = inl h
  Occurs-more (e ∷ seen) events (inr h) = inr (Occurs-more seen events h)

  Occurs-last : (seen : List Event) (e : Event) → P e → Occurs P (seen ++ e ∷ [])
  Occurs-last [] e h = inl h
  Occurs-last (x ∷ seen) e h = inr (Occurs-last seen e h)

module _ (summary : Bytes) where
  -- The last calls: the summary is sent, and the socket is closed.
  abbrev pub Closes : Main → Type 0
  Closes m =
      (front : List Call) × (m.calls
        ≡ front ++ send_server summary m.socket ++ close_server m.socket)

  -- What was seen on the way to a phase.
  abbrev Trail : MainPhase → List Event → Main → Type 0
  Trail listening seen m = Unit
  Trail serving seen m = Occurs IsConnected seen
  Trail reporting seen m = Occurs IsConnected seen
  Trail testing seen m = Occurs IsConnected seen
  Trail over seen m = Occurs IsConnected seen × Occurs IsFlag seen × Closes m

  Trail-more :
      (phase : MainPhase) (seen : List Event) (m : Main) (e : Event)
      → Trail phase seen m
      → Trail phase (seen ++ e ∷ []) m
  Trail-more listening seen m e h = tt
  Trail-more serving seen m e h = Occurs-more IsConnected seen (e ∷ []) h
  Trail-more reporting seen m e h = Occurs-more IsConnected seen (e ∷ []) h
  Trail-more testing seen m e h = Occurs-more IsConnected seen (e ∷ []) h
  Trail-more over seen m e (h, k, c) =
      (Occurs-more IsConnected seen (e ∷ []) h, Occurs-more IsFlag seen (e ∷ []) k, c)

  -- An event that does not belong to the phase.
  Trail-same :
      {phase : MainPhase} (seen : List Event) (m : Main) (e : Event)
      → m.phase ≡ phase
      → Trail phase seen m
      → Trail m.phase (seen ++ e ∷ []) m
  Trail-same {phase} seen m e same h =
      subst (λ p. Trail p (seen ++ e ∷ []) m) (sym same) (Trail-more phase seen m e h)

  listen-Trail :
      (done : Bool) (seen : List Event) (m : Main) (replies : ListenReplies)
      (socket : LinuxServerSocket) (calls : List Call)
      → (listen_server replies m.socket).0 ≡ done
      → Trail (after_listen done m.effects).0 (seen ++ listened replies ∷ []) (record {
        phase = (after_listen done m.effects).0;
        socket = socket;
        calls = calls;
        effects = (after_listen done m.effects).1;
      })
  listen-Trail true seen m replies socket calls h =
      Occurs-last IsConnected seen (listened replies) (m.socket, h)
  listen-Trail false seen m replies socket calls h = tt

  main_step-Trail :
      (phase : MainPhase) (seen : List Event) (m : Main) (e : Event)
      → m.phase ≡ phase
      → Trail phase seen m
      → Trail (main_step summary m phase e).phase (seen ++ e ∷ []) (main_step summary m phase e)
  unfolding main_step
  main_step-Trail listening seen m (listened replies) same h =
      listen-Trail _ seen m replies _ _ refl
  main_step-Trail listening seen m (saw finished) same h = Trail-same seen m (saw finished) same h
  main_step-Trail listening seen m (sent status shown ret) same h =
      Trail-same seen m (sent status shown ret) same h
  main_step-Trail listening seen m caught same h = Trail-same seen m caught same h
  main_step-Trail serving seen m (saw true) same h = Occurs-more IsConnected seen _ h
  main_step-Trail serving seen m (saw false) same h = Occurs-more IsConnected seen _ h
  main_step-Trail serving seen m (listened replies) same h =
      Trail-same seen m (listened replies) same h
  main_step-Trail serving seen m (sent status shown ret) same h =
      Trail-same seen m (sent status shown ret) same h
  main_step-Trail serving seen m caught same h = Trail-same seen m caught same h
  main_step-Trail reporting seen m (sent status shown ret) same h =
      elim (minus_one ret)
        as (λ b.
          let m' = elim b as (λ _. Main) [
            | true ↦ record m {
              phase = testing;
              calls = (m.calls ++ send_server status m.socket) ++ close_server m.socket;
              effects = m.effects ++ status_shown shown ∷ [];
            }
            | false ↦ record m {
              phase = serving;
              calls = m.calls ++ send_server status m.socket;
              effects = m.effects ++ status_shown shown ∷ [];
            }
          ] in
          Trail m'.phase (seen ++ sent status shown ret ∷ []) m') [
            | true ↦ Occurs-more IsConnected seen _ h
            | false ↦ Occurs-more IsConnected seen _ h
          ]
  main_step-Trail reporting seen m caught same h = Occurs-more IsConnected seen _ h
  main_step-Trail reporting seen m (listened replies) same h =
      Trail-same seen m (listened replies) same h
  main_step-Trail reporting seen m (saw finished) same h = Trail-same seen m (saw finished) same h
  main_step-Trail testing seen m (saw true) same h =
      (Occurs-more IsConnected seen _ h, Occurs-last IsFlag seen (saw true) refl, (m.calls, refl))
  main_step-Trail testing seen m (saw false) same h = tt
  main_step-Trail testing seen m (listened replies) same h =
      Trail-same seen m (listened replies) same h
  main_step-Trail testing seen m (sent status shown ret) same h =
      Trail-same seen m (sent status shown ret) same h
  main_step-Trail testing seen m caught same h = Trail-same seen m caught same h
  main_step-Trail over seen m e same h = Trail-same seen m e same h

  main_loop-Trail :
      (events seen : List Event) (m : Main)
      → Trail m.phase seen m
      → Trail (main_loop summary events m).phase (seen ++ events) (main_loop summary events m)
  unfolding main_loop
  main_loop-Trail [] seen m h = subst (λ s. Trail m.phase s m) (sym (append-nil seen)) h
  main_loop-Trail (e ∷ events) seen m h =
      let m' = main_step summary m m.phase e in
      subst (λ s. Trail (main_loop summary events m').phase s (main_loop summary events m'))
        (append_assoc seen (e ∷ []) events)
        (main_loop-Trail events (seen ++ e ∷ []) m' (main_step-Trail m.phase seen m e refl h))

  -- The loops of `run` with logging, entered at `listen`, are left only after a `listen` that accepted
  -- a client and a test that found `finished` up; the last calls then send the summary and close the
  -- socket. So a run to which no client connects does not end.
  pub main_loop-over :
      (events : List Event) (m : Main)
      → m.phase ≡ listening
      → (main_loop summary events m).phase ≡ over
      → Occurs IsConnected events × Occurs IsFlag events × Closes (main_loop summary events m)
  main_loop-over events m at_listen left =
      subst (λ p. Trail p events (main_loop summary events m)) left
        (main_loop-Trail events [] m (subst (λ p. Trail p [] m) (sym at_listen) tt))
