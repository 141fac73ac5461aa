-- ===== src/Service/Monitor/Collected.antt =====
-- What a discovery returns: ServiceMonitor of service.py.
use camera_ui_rpc.Base.{
  not, Bool, ℕ, ◌≡◌, refl, ap, true, String, Option, none, some, List, [], ◌∷◌, ◌++◌, map,
}
use camera_ui_rpc.Base.Result.{Result, ok}
use camera_ui_rpc.Service.Monitor.{
  Wait, arrives, times_out, raises, opened, Discovery, service_subject, collect, ping, info, stats,
}

module _ {A : Type 0} (parse : List ℕ → Option A) where
  -- every message can be read
  abbrev pub Readable : List (List ℕ × A) → Type 0
  Readable [] = Unit
  Readable ((bytes, response) ∷ messages) = (parse bytes ≡ some response) × Readable messages

  -- a pause, an exception, or a message that cannot be read
  abbrev pub EndsDiscovery : Wait → Type 0
  EndsDiscovery (arrives bytes) = parse bytes ≡ none
  EndsDiscovery times_out = Unit
  EndsDiscovery raises = Unit

  -- the messages, the wait that ends the discovery, and whatever comes later
  abbrev pub waits_for : List (List ℕ × A) → Wait → List Wait → List Wait
  waits_for messages last later = map (λ m. arrives m.0) messages ++ last ∷ later

  collected :
      (messages : List (List ℕ × A)) (last : Wait) (later : List Wait)
      → Readable messages
      → EndsDiscovery last
      → collect parse (waits_for messages last later) ≡ map (λ m. m.1) messages
  unfolding collect
  collected [] (arrives bytes) later readable ends = rw ends refl
  collected [] times_out later readable ends = refl
  collected [] raises later readable ends = refl
  collected ((bytes, response) ∷ messages) last later (reads, readable) ends =
      rw reads (ap (◌∷◌ response) (collected messages last later readable ends))

  -- what a discovery returns that has found these responses
  abbrev pub found : Bool → String → Option String → List A → Result (Discovery A)
  found ends prefix name responses = ok (record {
    subject = service_subject prefix name;
    responses = responses;
    subscribed = not ends;
  })

-- A discovery of a connected client that has subscribed its inbox and published its request,
-- whether it asks for pings, for the services' information or for their statistics, returns the responses that have arrived before its first pause of 10 ms or its
-- first message that cannot be read, in order; whatever arrives behind that message is lost. It
-- leaves a subscription just when unsubscribing raises.
pub discovery_collects :
    {A : Type 0} (parse : List ℕ → Option A) (name : Option String) (messages : List (List ℕ × A))
    (last : Wait) (later : List Wait) (ends : Bool)
    → Readable parse messages
    → EndsDiscovery parse last
    → let waits = waits_for parse messages last later in
      let responses = map (λ m. m.1) messages in
      (ping parse true name (opened ends) waits ≡ found parse ends "$SRV.PING" name responses)
      × (info parse true name (opened ends) waits ≡ found parse ends "$SRV.INFO" name responses)
      × (stats parse true name (opened ends) waits ≡ found parse ends "$SRV.STATS" name responses)
unfolding ping info stats
discovery_collects parse name messages last later ends readable last_one =
    rw (collected parse messages last later readable last_one) (refl, refl, refl)
