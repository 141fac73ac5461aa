-- ===== src/Service/Endpoint/Asked.antt =====
-- What asks an endpoint for a stream, in handle_rpc_message of service.py.
use camera_ui_rpc.Base.{
  ◌≢◌, sym, false, ◌&&◌, if◌then◌else◌, true, Bool, ◌≡◌, refl, ap, ◌∙◌, Option, none, some,
}
use camera_ui_rpc.Codec.Values.{Value, dict, Fields, no_fields, field_of}
use camera_ui_rpc.Codec.Fields.{truthy, truthy?}
use camera_ui_rpc.Handler.Generators.{Raised, Generator, generator, get_generator}
use camera_ui_rpc.Client.Handlers.{value_or, args_of}
use camera_ui_rpc.Service.Endpoint.{
  stream_fields, unless_stream, Method, RequestKind, stream_request, request_kind,
}

-- The request asks for a stream on this subject: its "params" are a dictionary with a true
-- "__stream" and a true "__streamSubject".
abbrev pub AsksStream : Fields → Fields → Value → Type 0
AsksStream message params stream_subject =
    (field_of "params" message ≡ some (dict params))
    × (truthy? (field_of "__stream" params) ≡ true)
    × (field_of "__streamSubject" params ≡ some stream_subject)
    × (truthy stream_subject ≡ true)

-- The method makes this generator of the request's "args".
abbrev pub Streams : Method → Fields → Generator → Type 0
Streams h params g =
    get_generator "Handler must return a generator for stream" (h.streaming (args_of params))
    ≡ generator g

-- The request asks for no stream that runs to its end.
abbrev pub EndsNoStream : Method → (Generator → Option Raised) → Fields → Type 0
EndsNoStream h stream_raises message =
    (params : Fields) (stream_subject : Value) (g : Generator)
    → AsksStream message params stream_subject
    → Streams h params g
    → stream_raises g ≢ none

unless_stream-is_stream :
    (stream iterator : Option Fields) (fs : Fields)
    → unless_stream stream iterator ≡ stream_request fs
    → stream ≡ some fs
unless_stream-is_stream (some gs) iterator fs kind = cc kind
unless_stream-is_stream none (some gs) fs kind = cc kind
unless_stream-is_stream none none fs kind = cc kind

stream_fields-is_stream :
    (params : Value) (fs : Fields)
    → stream_fields params ≡ some fs
    → (params ≡ dict fs)
      × (truthy? (field_of "__stream" fs) ≡ true)
      × (truthy? (field_of "__streamSubject" fs) ≡ true)
stream_fields-is_stream (dict gs) fs found =
    by_flags (truthy? (field_of "__stream" gs)) refl (truthy? (field_of "__streamSubject" gs)) refl
      found
  where
    by_flags :
        (q : Bool)
        → truthy? (field_of "__stream" gs) ≡ q
        → (r : Bool) → truthy? (field_of "__streamSubject" gs) ≡ r
        → (if q && r then some gs else none) ≡ some fs
        → (dict gs ≡ dict fs)
          × (truthy? (field_of "__stream" fs) ≡ true)
          × (truthy? (field_of "__streamSubject" fs) ≡ true)
    by_flags true a true b e = let same : gs ≡ fs = cc e in rw (← same) (refl, a, b)
    by_flags true a false b e = cc e
    by_flags false a r b e = cc e
stream_fields-is_stream params fs found = cc found

-- what `request_kind` takes for a stream asks for one
asks_given :
    (message fs : Fields) (subject : Option Value)
    → field_of "params" message ≡ some (dict fs)
    → truthy? (field_of "__stream" fs) ≡ true
    → field_of "__streamSubject" fs ≡ subject
    → truthy? subject ≡ true
    → AsksStream message fs (value_or Value.null subject)
asks_given message fs none p flag there true_one = cc true_one
asks_given message fs (some s) p flag there true_one = (p, flag, there, true_one)

pub asks_by :
    (message fs : Fields) (params : Option Value)
    → field_of "params" message ≡ params
    → request_kind (value_or (dict no_fields) params) ≡ stream_request fs
    → AsksStream message fs (value_or Value.null (field_of "__streamSubject" fs))
unfolding request_kind field_of
asks_by message fs none p kind = cc kind
asks_by message fs (some params) p kind =
    let (same, flag, there) =
      stream_fields-is_stream params fs (unless_stream-is_stream _ _ fs kind) in
    asks_given message fs (field_of "__streamSubject" fs) (p ∙ ap some same) flag refl there

-- What asks for a stream is taken for one.
stream_fields-asks :
    (fs : Fields)
    → truthy? (field_of "__stream" fs) ≡ true
    → truthy? (field_of "__streamSubject" fs) ≡ true
    → stream_fields (dict fs) ≡ some fs
stream_fields-asks fs flag there = rw (flag, there) refl

pub kind_of_asks :
    (message fs : Fields) (s : Value)
    → AsksStream message fs s
    → request_kind (value_or (dict no_fields) (field_of "params" message)) ≡ stream_request fs
unfolding request_kind
kind_of_asks message fs s (p, flag, there, true_one) =
    let there_too : truthy? (field_of "__streamSubject" fs) ≡ true = rw there true_one in
    rw (p, stream_fields-asks fs flag there_too) refl

pub other_kind-EndsNoStream :
    (h : Method) (stream_raises : Generator → Option Raised) (message : Fields) (k : RequestKind)
    → request_kind (value_or (dict no_fields) (field_of "params" message)) ≡ k
    → ((fs : Fields) → k ≢ stream_request fs)
    → EndsNoStream h stream_raises message
other_kind-EndsNoStream h stream_raises message k kind other params s g asks streams ends =
    other params (sym kind ∙ kind_of_asks message params s asks)

-- The stream of the request has failed to start, or it has raised.
pub failed-EndsNoStream :
    (h : Method) (stream_raises : Generator → Option Raised) (message fs : Fields)
    → request_kind (value_or (dict no_fields) (field_of "params" message)) ≡ stream_request fs
    → ((g : Generator) → Streams h fs g → stream_raises g ≢ none)
    → EndsNoStream h stream_raises message
failed-EndsNoStream h stream_raises message fs kind failing params s g asks streams ends =
    let same : fs ≡ params =
      stream_request_injective (sym kind ∙ kind_of_asks message params s asks) in
    failing g (rw same streams) ends
  where
    stream_request_injective : {x y : Fields} → stream_request x ≡ stream_request y → x ≡ y
    stream_request_injective e = cc e
