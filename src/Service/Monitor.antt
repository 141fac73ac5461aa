-- ===== src/Service/Monitor.antt =====
-- ServiceMonitor of service.py: the discovery of services. What a response is read as is a parameter,
-- that is json.loads and the class of the NATS library, and so is what each wait for a message gets.
pub mod Collected
pub mod Tests
use Prim.Native.String.{◌++◌ as join_texts}
use camera_ui_rpc.Base.{
  not, ℕ, Bool, true, false, String, Option, none, some, List, [], ◌∷◌, ◌==◌, String_eq,
  if◌then◌else◌,
}
use camera_ui_rpc.Base.Result.{Result, ok, err, runtime_error}

-- one wait of 10 ms for a message
pub data Wait : Type 0 where
  arrives : List ℕ → Wait
  times_out raises : Wait

-- how far the opening of a discovery gets
pub data Opening : Type 0 where
  unsubscribed unpublished : Opening
  -- open, and whether its end can be told to NATS: that this raises is suppressed
  opened : Bool → Opening

pub record Discovery {ℓ} (A : Type ℓ) : Type ℓ where
  pub subject : String
  pub responses : List A
  -- the inbox is still subscribed to
  pub subscribed : Bool

-- `f"{prefix}.{service_name}" if service_name else prefix`
abbrev pub service_subject : String → Option String → String
service_subject prefix none = prefix
service_subject prefix (some name) =
    if name == "" then prefix else join_texts prefix (join_texts "." name)

module _ {ℓ} {A : Type ℓ} (parse : List ℕ → Option A) where
  abbrev pub add_response : Option A → List A → List A
  add_response none later = []
  add_response (some response) later = response ∷ later

  -- the loop
  unfoldable pub collect : List Wait → List A
  collect [] = []
  collect (arrives bytes ∷ waits) = let later = collect waits in add_response (parse bytes) later
  collect (times_out ∷ waits) = []
  collect (raises ∷ waits) = []

  abbrev pub discovered : String → Opening → List Wait → Discovery A
  discovered subject unsubscribed waits = record {
    subject = subject;
    responses = [];
    subscribed = false;
  }
  discovered subject unpublished waits = record {
    subject = subject;
    responses = [];
    subscribed = true;
  }
  discovered subject (opened ends) waits = record {
    subject = subject;
    responses = collect waits;
    subscribed = not ends;
  }

  unfoldable pub ping : Bool → Option String → Opening → List Wait → Result (Discovery A)
  unfolding collect
  ping connected service_name opening waits =
      if connected
      then ok (discovered (service_subject "$SRV.PING" service_name) opening waits)
      else err runtime_error

  unfoldable pub info : Bool → Option String → Opening → List Wait → Result (Discovery A)
  unfolding collect
  info connected service_name opening waits =
      if connected
      then ok (discovered (service_subject "$SRV.INFO" service_name) opening waits)
      else err runtime_error

  unfoldable pub stats : Bool → Option String → Opening → List Wait → Result (Discovery A)
  unfolding collect
  stats connected service_name opening waits =
      if connected
      then ok (discovered (service_subject "$SRV.STATS" service_name) opening waits)
      else err runtime_error
