-- ===== src/Emitter/Main.antt =====
-- `main` of emitter/hook_emitter.py: what a hook's input makes it send, and what the daemon gets.
use silicon_office.Prelude.{
  ℕ, String, ◌≡◌, refl, Bool, false, Option, none, some, List, [], Outcome, ok, if◌then◌else◌,
}
use silicon_office.Prelude.Dict.{Dict}
use silicon_office.Json.{to_dict-from_dict, Json, obj, object, to_dict}
use silicon_office.Schema.{HookEvent}
use silicon_office.Ipc.{Loaded, encode_message}
use silicon_office.Ipc.Stream.{IsFaithful, datagram_roundtrip}
use silicon_office.Sessions.{World}
use silicon_office.Registry.{Agents}
use silicon_office.Daemon.{on_event, datagram_received}
use silicon_office.Usage.Scan.{is_blank}
use silicon_office.Emitter.{Built, build_hook_event}
use silicon_office.Emitter.Wire.{
  event_dict, RawEvent, received_event, sent_event, text_or_null, event_roundtrip,
}

-- What reading stdin gives.
pub data Stdin : Type 0 where
  text : String → Stdin
  unreadable : Stdin

-- `payload if isinstance(payload, dict) else {}`, of what `json.loads` gives.
abbrev dict_or_empty : Outcome Json → Dict Json
dict_or_empty (ok (obj fs)) = to_dict fs
dict_or_empty _ = []

-- The first `try` of `main`; `parse` is `json.loads` on a text.
unfoldable pub read_payload : (String → Outcome Json) → Stdin → Dict Json
read_payload parse unreadable = []
read_payload parse (text raw) = if is_blank raw then [] else dict_or_empty (parse raw)

-- A text that holds an object gives it.
pub read_payload-text :
    (parse : String → Outcome Json) (raw : String) (payload : Dict Json)
    → is_blank raw ≡ false
    → parse raw ≡ ok (object payload)
    → read_payload parse (text raw) ≡ payload
unfolding read_payload
read_payload-text parse raw payload b p = rw (b, p) (to_dict-from_dict payload)

module _ {T : Type 0} (dumps : Json → List ℕ) (stamp : T → Json) where
  -- `send_udp_fire_and_forget` of `event.to_dict()`: the datagram. A failing send loses it.
  unfoldable pub datagram : Built T → List ℕ
  datagram e = encode_message dumps (object (event_dict stamp e))

  unfoldable pub send_event : Option (Built T) → Option (List ℕ)
  send_event none = none
  send_event (some e) = some (datagram e)

  -- `main`: the datagram, if one is sent. It exits with 0 whatever happens.
  unfoldable pub main :
      (Json → String) → (String → Bool) → (String → Outcome Json) → Stdin → T → Option (List ℕ)
  main repr is_zero parse stdin now =
      send_event (build_hook_event repr is_zero (read_payload parse stdin) now)

  module _ (loads : List ℕ → Loaded Json) (of_stamp : Json → Option T)
      (odd : RawEvent → Outcome (HookEvent T)) where
    -- A hook reaches the state machine unchanged: if the payload gives an event whose tool and
    -- agent are texts or null, its time stamp survives the coding, and the JSON coding reads back
    -- what it wrote for it, on one line, then `main` sends one datagram, and the listener that
    -- gets it handles that very event.
    pub hook_reaches_daemon :
        (repr : Json → String) (is_zero : String → Bool) (parse : String → Outcome Json)
        (stdin : Stdin) (sent : T) (e : Built T) (tool agent kind : Option String) (w : World)
        (agents : Agents T) (now ts : T)
        → build_hook_event repr is_zero (read_payload parse stdin) sent ≡ some e
        → e.tool_name ≡ text_or_null tool
        → e.agent_id ≡ text_or_null agent
        → e.agent_type ≡ text_or_null kind
        → of_stamp (stamp e.ts) ≡ some e.ts
        → IsFaithful dumps loads (object (event_dict stamp e))
        → (sent_bytes : List ℕ) × (main repr is_zero parse stdin sent ≡ some sent_bytes)
          × (datagram_received loads (received_event of_stamp odd) w agents sent_bytes now ts
              ≡ ok (on_event w agents (ok (sent_event e tool agent kind)) now ts))
    unfolding main send_event datagram datagram_received
    hook_reaches_daemon repr is_zero parse stdin sent e tool agent kind w agents now ts b t a k s
          f =
        (
          datagram e,
          rw (b, send_event) refl,
          rw (datagram_roundtrip dumps loads (object (event_dict stamp e)) f, datagram_received)
              (rw (event_roundtrip of_stamp stamp odd e tool agent kind s t a k) refl),
        )
