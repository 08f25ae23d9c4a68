-- ===== src/Drive/Attention.antt =====
-- The unit attentions that a drive has for each initiator: data-plane/src/scsi_tape/state.rs, and
-- the part of the dispatch in data-plane/src/iscsi/cdb_server.rs that reports them. What the reading
-- of the shared files before and the handler behind do to the queues comes with a command, as the
-- steps that they take: attentions that are pushed, mounts and unmounts.
pub mod Nexus
mod Examples
use Prim.Native.Nat.{zero, suc}
use mathlib.Core.List.{map}
use holo.Prelude.{
  ℕ, ◌+◌, ◌≤◌, ◌≡◌, refl, sym, ap, ◌∙◌, ◌==◌, Bool, true, false, ◌&&◌, Option, none, some, List, [],
  ◌∷◌, ◌++◌, length, trim, is_empty, arith, if◌then◌else◌,
}
use holo.Prelude.OrdMap.{
  Map, get, insert, remove, Text, text_keys, keq, keq_iff, get-insert, get-remove,
}
use holo.Wire.{CdbResponse, good, check_condition}
use holo.Changer.{build_sense_fixed, push_unit_attention}

abbrev pub Queue : Type 0
Queue = List (ℕ × ℕ)

pub record AttentionState : Type 0 where
  pub pending_unit_attention : Queue
  pub nexus_unit_attention : Map Text Queue

abbrev pub initial_unit_attention_queue : Queue
initial_unit_attention_queue = (0x29, 0x00) ∷ []

unfoldable pub take_unit_attention : Queue → Option (ℕ × ℕ) × Queue
take_unit_attention [] = (none, [])
take_unit_attention (attention ∷ queue) = (some attention, queue)

-- The first attention that does not tell of a power-on.
unfoldable pub take_other : Queue → Option (ℕ × ℕ) × Queue
take_other [] = (none, [])
take_other (attention ∷ queue) =
    let rest = take_other queue in
    if attention.0 == 0x29 && attention.1 == 0x00
    then (rest.0, attention ∷ rest.1)
    else (some attention, queue)

unfoldable pub take_pending_unit_attention_for_opcode : ℕ → Queue → Option (ℕ × ℕ) × Queue
take_pending_unit_attention_for_opcode opcode queue =
    if opcode == 0x12 then (none, queue) else take_other queue

abbrev pub attention_sense : ℕ × ℕ → List ℕ
attention_sense attention = build_sense_fixed 0x06 attention.0 attention.1

abbrev pub no_sense : List ℕ
no_sense = 0x70 ∷ 0 ∷ 0 ∷ 0 ∷ 0 ∷ 0 ∷ 0 ∷ 10 ∷ 0 ∷ 0 ∷ 0 ∷ 0 ∷ 0 ∷ 0 ∷ 0 ∷ 0 ∷ 0 ∷ 0 ∷ []

unfoldable pub request_sense_response : Queue → List ℕ × Queue
request_sense_response queue =
    let taken = take_unit_attention queue in
    (elim taken.0 [ none ↦ no_sense | some attention ↦ attention_sense attention ], taken.1)

-- What the program does to the queues of the command's initiator and of the others:
-- `push_unit_attention`, and the ends of `mount` and `unmount`.
pub data AttentionStep : Type 0 where
  pushes : (asc ascq : ℕ) → AttentionStep
  mounts unmounts : AttentionStep

unfoldable pub mount_attentions : AttentionState → AttentionState
mount_attentions s = record {
  pending_unit_attention = push_unit_attention 0x28 0x00 [];
  nexus_unit_attention = [];
}

unfoldable pub unmount_attentions : AttentionState → AttentionState
unmount_attentions s = record { pending_unit_attention = []; nexus_unit_attention = [] }

unfoldable pub take_step : AttentionStep → AttentionState → AttentionState
take_step (pushes asc ascq) s = record s {
  pending_unit_attention = push_unit_attention asc ascq s.pending_unit_attention;
}
take_step mounts s = mount_attentions s
take_step unmounts s = unmount_attentions s

unfoldable pub take_steps : List AttentionStep → AttentionState → AttentionState
take_steps [] s = s
take_steps (step ∷ steps) s = take_steps steps (take_step step s)

-- A command that is answered before the attentions are looked at (a malformed CDB, shared files that
-- cannot be read), the two that report them, and the others.
pub data CommandForm : Type 0 where
  refused : (answer : CdbResponse) → CommandForm
  test_unit_ready : (loaded : Bool) → CommandForm
  request_sense : CommandForm
  other : (opcode : ℕ) → CommandForm

-- A command with the steps of the synchronisation before it and of the handler behind it.
pub record DriveCommand : Type 0 where
  pub prepared : List AttentionStep
  pub form : CommandForm
  pub handled : List AttentionStep

-- The answer, or none where the command goes on, with the queue left.
unfoldable pub attention_answer : CommandForm → Queue → Option CdbResponse × Queue
attention_answer (refused answer) queue = (some answer, queue)
attention_answer (test_unit_ready loaded) queue =
    let taken = take_unit_attention queue in
    (
      elim taken.0 [
        | none ↦
            some (if loaded then good [] else check_condition (build_sense_fixed 0x02 0x3A 0x00))
        | some attention ↦ some (check_condition (attention_sense attention))
      ],
      taken.1,
    )
attention_answer request_sense queue =
    let sense = request_sense_response queue in (some (good sense.0), sense.1)
attention_answer (other opcode) queue =
    let taken = take_pending_unit_attention_for_opcode opcode queue in
    (
      elim taken.0 [
        | none ↦ none
        | some attention ↦ some (check_condition (attention_sense attention))
      ],
      taken.1,
    )

abbrev pub queue_or_initial : Option Queue → Queue
queue_or_initial none = initial_unit_attention_queue
queue_or_initial (some queue) = queue

unfoldable pub take_nexus_unit_attention : Text → AttentionState → Queue × AttentionState
take_nexus_unit_attention initiator s = (
  s.pending_unit_attention,
  record {
    pending_unit_attention = queue_or_initial (get (trim initiator) s.nexus_unit_attention);
    nexus_unit_attention = remove (trim initiator) s.nexus_unit_attention;
  },
)

unfoldable pub restore_nexus_unit_attention : Text → Queue → AttentionState → AttentionState
restore_nexus_unit_attention initiator default_queue s = record {
  pending_unit_attention = default_queue;
  nexus_unit_attention = insert (trim initiator) s.pending_unit_attention s.nexus_unit_attention;
}

-- The initiator of the context, unless it is blank.
unfoldable pub named : Option Text → Option Text
named none = none
named (some raw) = if is_empty (trim raw) then none else some (trim raw)

abbrev pub go_on : Option CdbResponse → List AttentionStep → AttentionState → AttentionState
go_on (some answer) steps s = s
go_on none steps s = take_steps steps s

unfoldable pub dispatch_inner : DriveCommand → AttentionState → Option CdbResponse × AttentionState
dispatch_inner r s =
    let ready = take_steps r.prepared s in
    let a = attention_answer r.form ready.pending_unit_attention in
    (a.0, go_on a.0 r.handled (record ready { pending_unit_attention = a.1 }))

abbrev pub dispatch_as :
    Option Text → DriveCommand → AttentionState → Option CdbResponse × AttentionState
dispatch_as none r s = dispatch_inner r s
dispatch_as (some initiator) r s =
    let taken = take_nexus_unit_attention initiator s in
    let inner = dispatch_inner r taken.1 in
    (inner.0, restore_nexus_unit_attention initiator taken.0 inner.1)

unfoldable pub dispatch :
    Option Text → DriveCommand → AttentionState → Option CdbResponse × AttentionState
dispatch context = dispatch_as (named context)
