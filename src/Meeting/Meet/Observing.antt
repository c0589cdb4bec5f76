-- ===== src/Meeting/Meet/Observing.antt =====
-- What the page tells the worker: the Go side of internal/infra/meeting/meet/audio_capture.go and
-- speakers_observer.go. The scripts that they add to the page are JavaScript; the page and the JSON of a
-- payload are outside.
use meeting_baa_s.Base.{
  ◌≡◌, refl, ap, ◌∙◌, ℕ, Bool, true, false, not, none, some, List, [], ◌∷◌, String, Option, Result,
  ok, err, Failure, str_eq, if◌then◌else◌,
}
use meeting_baa_s.Speaker.{SpeakerEvent, new_manager, has_name, Hub, push, snapshot_names}
use meeting_baa_s.Speaker.Names.{pushes, is_speaking, was_seen, pushes-snapshot_names}
use Prim.Native.String

-- What the page is asked; a call that fails is asked too.
pub data PageCall : Type 0 where
  expose_function add_init_script evaluate : PageCall

-- `AudioCapture`, and what its page was asked, newest first.
pub record AudioCapture : Type 0 where
  pub enabled : Bool
  pub expose_ok : Bool
  pub calls : List PageCall

abbrev pub new_audio_capture : AudioCapture
new_audio_capture = record { enabled = false; expose_ok = false; calls = [] }

-- An error of ExposeFunction is only logged.
abbrev exposed : Bool → List PageCall → List PageCall
exposed expose_ok calls = if expose_ok then calls else expose_function ∷ calls

-- `added` is the error of AddInitScript.
unfoldable pub enable : (page : Bool) → (added : Failure) → AudioCapture → Failure × AudioCapture
enable page added c =
    if not page
    then (some "meet.audio: nil page", c)
    else if c.enabled
    then (none, c)
    else elim added [
      | some e ↦ (
        some (String.◌++◌ "meet.audio: add init script: " e),
        record c { expose_ok = true; calls = add_init_script ∷ exposed c.expose_ok c.calls },
      )
      | none ↦ (
        none,
        record {
          enabled = true;
          expose_ok = true;
          calls = add_init_script ∷ exposed c.expose_ok c.calls;
        },
      )
    ]

unfoldable pub stop : (page : Bool) → (evaluated : Failure) → AudioCapture → Failure × AudioCapture
stop page evaluated c =
    if page then (evaluated, record c { calls = evaluate ∷ c.calls }) else (none, c)

pub record JsSpeakerData : Type 0 where
  pub name : String
  pub id : ℕ
  pub speaking : Bool
  pub timestamp : ℕ

pub record SpeakersObserver : Type 0 where
  pub enabled : Bool
  pub expose_ok : Bool
  pub start_at : ℕ
  pub calls : List PageCall

abbrev pub new_speakers_observer : SpeakersObserver
new_speakers_observer = record { enabled = false; expose_ok = false; start_at = 0; calls = [] }

unfoldable pub attach :
    (page : Bool) → (now : ℕ) → (added : Failure) → SpeakersObserver → Failure × SpeakersObserver
attach page now added o =
    if not page
    then (some "speakers: nil page", o)
    else if o.enabled
    then (none, o)
    else elim added [
      | some e ↦ (
        some (String.◌++◌ "speakers: add init script: " e),
        record o {
          expose_ok = true;
          start_at = now;
          calls = add_init_script ∷ exposed o.expose_ok o.calls;
        },
      )
      | none ↦ (
        none,
        record {
          enabled = true;
          expose_ok = true;
          start_at = now;
          calls = add_init_script ∷ exposed o.expose_ok o.calls;
        },
      )
    ]

abbrev pub speaker_event : JsSpeakerData → SpeakerEvent
speaker_event sp = record { name = sp.name; active = sp.speaking }

-- A payload is pushed entry by entry, the first one first.
unfoldable pub push_speakers : List JsSpeakerData → Hub → Hub
push_speakers [] h = h
push_speakers (sp ∷ sps) h = push_speakers sps (push (speaker_event sp) h)

-- One call of the binding: its argument, if any, as JSON decodes it.
unfoldable pub handle : Option (Result (List JsSpeakerData)) → Hub → Hub
handle none h = h
handle (some (err e)) h = h
handle (some (ok speakers)) h = push_speakers speakers h

unfoldable pub handle_all : List (Option (Result (List JsSpeakerData))) → Hub → Hub
handle_all [] h = h
handle_all (p ∷ ps) h = handle_all ps (handle p h)

-- The events of the payloads, the latest first.
abbrev pub latest_first : List JsSpeakerData → List SpeakerEvent → List SpeakerEvent
latest_first [] evs = evs
latest_first (sp ∷ sps) evs = latest_first sps (speaker_event sp ∷ evs)

abbrev pub history :
    List (Option (Result (List JsSpeakerData))) → List SpeakerEvent → List SpeakerEvent
history [] evs = evs
history (none ∷ ps) evs = history ps evs
history (some (err e) ∷ ps) evs = history ps evs
history (some (ok speakers) ∷ ps) evs = history ps (latest_first speakers evs)

push_speakers-pushes :
    (sps : List JsSpeakerData) (evs : List SpeakerEvent) (h : Hub)
    → push_speakers sps (pushes evs h) ≡ pushes (latest_first sps evs) h
unfolding push_speakers pushes
push_speakers-pushes [] evs h = refl
push_speakers-pushes (sp ∷ sps) evs h = push_speakers-pushes sps (speaker_event sp ∷ evs) h

handle_all-pushes :
    (ps : List (Option (Result (List JsSpeakerData)))) (evs : List SpeakerEvent) (h : Hub)
    → handle_all ps (pushes evs h) ≡ pushes (history ps evs) h
unfolding handle_all handle
handle_all-pushes [] evs h = refl
handle_all-pushes (none ∷ ps) evs h = handle_all-pushes ps evs h
handle_all-pushes (some (err e) ∷ ps) evs h = handle_all-pushes ps evs h
handle_all-pushes (some (ok speakers) ∷ ps) evs h =
    ap (handle_all ps) (push_speakers-pushes speakers evs h)
    ∙ handle_all-pushes ps (latest_first speakers evs) h

-- Behind any calls of the page's binding, some without a payload or with one that is not JSON of
-- speakers, the snapshot of a manager that was new has a name among the active just where the last
-- entry with that name in the payloads was speaking, and among all just where there was one. An empty
-- name is no name.
pub handle_all-snapshot_names :
    (name : String) (ps : List (Option (Result (List JsSpeakerData)))) (h : Hub)
    → h.manager ≡ new_manager
    → str_eq name "" ≡ false
    → let (active, all) = snapshot_names (handle_all ps h).manager in
      (has_name name active ≡ is_speaking name (history ps []))
      × (has_name name all ≡ was_seen name (history ps []))
unfolding pushes
handle_all-snapshot_names name ps h e n =
    rw (handle_all-pushes ps [] h) (pushes-snapshot_names name (history ps []) h e n)
