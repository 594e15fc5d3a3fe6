-- ===== src/Bridge/Units.antt =====
-- server.py: UnitStatePublisher, one worker that publishes the newest state of each unit. The event
-- loop runs one piece of code at a time and changes over only where the worker awaits; each such piece
-- is a step: a submission, the worker's wake-up, the end of a publish, the end of the pause. A unit is
-- a value of any type `U`, as it was submitted, with its topic; the `_wakeup` and `_idle` events are
-- flags. The log and the failed publishes' exceptions are left out.
use Prim.Native.String.{String}
use text.Mathlib.Text.{◌==◌ as str_eq}
use casambi_mqtt.Prelude.{
  ℕ, zero, suc, max, Bool, true, false, Option, none, some, List, [], ◌∷◌, length, if◌then◌else◌,
}
use casambi_mqtt.Bridge.State.{BridgeDiagnostics, no_diagnostics}

-- A dictionary from topics, in the order in which its keys were put in.
abbrev pub Topics : Type 0 → Type 0
Topics U = List (String × U)

-- `d.get(topic)`
unfoldable pub find : {U : Type 0} → String → Topics U → Option U
find k [] = none
find k ((j, u) ∷ d) = if str_eq j k then some u else find k d

-- `d[topic] = unit`: a key that is there keeps its place.
unfoldable pub assign : {U : Type 0} → String → U → Topics U → Topics U
assign k u [] = (k, u) ∷ []
assign k u ((j, v) ∷ d) = if str_eq j k then (k, u) ∷ d else (j, v) ∷ assign k u d

-- `topic in d`
abbrev pub is_in : {U : Type 0} → String → Topics U → Bool
is_in k d = elim (find k d) [ none ↦ false | some u ↦ true ]

-- Where the worker awaits: its wake-up, the broker's answer, or the pause after a failure.
pub data Worker (U : Type 0) : Type 0 where
  waiting : Worker U
  publishing : String → U → Worker U
  pausing : Worker U

-- `retained` is what the broker has confirmed, by topic.
pub record UnitStatePublisher (U : Type 0) : Type 0 where
  pub pending : Topics U
  pub failed : ℕ
  pub failure_streak : ℕ
  pub wakeup : Bool
  pub idle : Bool
  pub worker : Worker U
  pub diagnostics : BridgeDiagnostics
  pub retained : Topics U

-- `UnitStatePublisher(client, diagnostics)` with its worker started
abbrev pub new_publisher : {U : Type 0} → UnitStatePublisher U
new_publisher = record {
  pending = [];
  failed = 0;
  failure_streak = 0;
  wakeup = false;
  idle = true;
  worker = waiting;
  diagnostics = no_diagnostics;
  retained = [];
}

-- `is_failing`
abbrev pub is_failing : {U : Type 0} → UnitStatePublisher U → Bool
is_failing p = elim p.failure_streak [ zero ↦ false | suc n ↦ true ]

unfoldable pub submit : {U : Type 0} → String → U → UnitStatePublisher U → UnitStatePublisher U
submit topic u p =
    let pending = assign topic u p.pending in
    let d = p.diagnostics in
    record p {
      pending = pending;
      idle = false;
      wakeup = true;
      diagnostics = record d {
        unit_publish_coalesced =
            if is_in topic p.pending
            then suc d.unit_publish_coalesced
            else d.unit_publish_coalesced;
        unit_queue_depth = length pending;
        unit_queue_peak = max d.unit_queue_peak (length pending);
      };
    }

-- The head of `while self._pending`, and what follows the loop: take the oldest topic, or wait again.
unfoldable pub drain : {U : Type 0} → UnitStatePublisher U → UnitStatePublisher U
drain p = elim p.pending [
  | [] ↦ record p { idle = true; worker = waiting }
  | e ∷ rest ↦
      let d = p.diagnostics in
      record p {
        pending = rest;
        worker = publishing (e.0) (e.1);
        diagnostics = record d {
          unit_queue_depth = length rest;
          unit_publish_attempted = suc d.unit_publish_attempted;
        };
      }
]

-- The broker has confirmed the publish.
unfoldable pub confirmed : {U : Type 0} → String → U → UnitStatePublisher U → UnitStatePublisher U
confirmed topic u p =
    let d = p.diagnostics in
    drain (record p {
      failure_streak = 0;
      retained = assign topic u p.retained;
      diagnostics = record d { unit_publish_confirmed = suc d.unit_publish_confirmed };
    })

-- The publish has failed: the unit goes back to the end, unless a newer state of it is waiting.
unfoldable pub refused : {U : Type 0} → String → U → UnitStatePublisher U → UnitStatePublisher U
refused topic u p =
    let pending = if is_in topic p.pending then p.pending else assign topic u p.pending in
    let d = p.diagnostics in
    record p {
      failed = suc p.failed;
      failure_streak = suc p.failure_streak;
      pending = pending;
      worker = pausing;
      diagnostics = record d {
        unit_publish_failed = suc d.unit_publish_failed;
        unit_queue_depth = length pending;
      };
    }

-- After the pause the loop is left, and the worker is woken at once if there is work.
unfoldable pub rested : {U : Type 0} → UnitStatePublisher U → UnitStatePublisher U
rested p = record p {
  wakeup = true;
  idle = elim p.pending [ [] ↦ true | e ∷ rest ↦ p.idle ];
  worker = waiting;
}

-- What may happen next; a step that the worker's place does not allow changes nothing.
pub data Event (U : Type 0) : Type 0 where
  submitted : String → U → Event U
  woken : Event U
  answered : Bool → Event U
  pause_over : Event U

abbrev pub wake : {U : Type 0} → UnitStatePublisher U → UnitStatePublisher U
wake p = elim p.worker [
  | waiting ↦ if p.wakeup then drain (record p { wakeup = false }) else p
  | publishing topic u ↦ p
  | pausing ↦ p
]

abbrev pub answer : {U : Type 0} → Bool → UnitStatePublisher U → UnitStatePublisher U
answer ok p = elim p.worker [
  | waiting ↦ p
  | publishing topic u ↦ if ok then confirmed topic u p else refused topic u p
  | pausing ↦ p
]

abbrev pub end_pause : {U : Type 0} → UnitStatePublisher U → UnitStatePublisher U
end_pause p = elim p.worker [ waiting ↦ p | publishing topic u ↦ p | pausing ↦ rested p ]

unfoldable pub step : {U : Type 0} → Event U → UnitStatePublisher U → UnitStatePublisher U
step (submitted topic u) p = submit topic u p
step woken p = wake p
step (answered ok) p = answer ok p
step pause_over p = end_pause p

unfoldable pub run : {U : Type 0} → List (Event U) → UnitStatePublisher U → UnitStatePublisher U
run [] p = p
run (e ∷ es) p = run es (step e p)
