-- ===== src/Drive/Attention/Nexus.antt =====
-- Each initiator's attentions are its own: data-plane/src/iscsi/cdb_server.rs. A session is the list
-- of the commands that a drive gets, with the initiator of each.
use mathlib.Core.List.{map}
use holo.Prelude.{
  ◌&&◌, ◌||◌, ◌≡◌, refl, ap, ◌∙◌, Bool, true, false, Option, none, some, List, [], ◌∷◌, trim, arith,
  if◌then◌else◌,
}
use holo.Prelude.OrdMap.{get, remove, Text, text_keys, keq, keq_iff, get-insert, get-remove}
use holo.Changer.{push_unit_attention}
use holo.Wire.{CdbResponse, good}
use holo.Drive.Attention.{
  Queue, AttentionState, queue_or_initial, DriveCommand, request_sense, attention_sense,
  AttentionStep, pushes, mounts, unmounts, mount_attentions, unmount_attentions, take_step,
  take_steps, go_on, attention_answer, named, dispatch, dispatch_as, dispatch_inner,
  take_nexus_unit_attention, restore_nexus_unit_attention, request_sense_response,
  take_unit_attention,
}

-- The commands of a session, each with the initiator of its context, and their answers.
unfoldable pub serve_session :
    List (Option Text × DriveCommand) → AttentionState → List (Option Text × Option CdbResponse)
serve_session [] s = []
serve_session ((context, r) ∷ rs) s =
    let d = dispatch context r s in (context, d.0) ∷ serve_session rs d.1

abbrev is_key : Text → Option Text → Bool
is_key key none = false
is_key key (some initiator) = keq key (trim initiator)

-- Does the context name the nexus of the key?
unfoldable pub is_nexus : Text → Option Text → Bool
is_nexus key context = is_key key (named context)

unfoldable pub of_nexus {ℓ} : {A : Type ℓ} → Text → List (Option Text × A) → List A
of_nexus key [] = []
of_nexus key ((context, x) ∷ xs) =
    let rest = of_nexus key xs in if is_nexus key context then x ∷ rest else rest

unfoldable pub queue_of : Text → AttentionState → Queue
queue_of key s = queue_or_initial (get key s.nexus_unit_attention)

-- The steps on a queue that no other initiator has.
unfoldable pub step_queue : AttentionStep → Queue → Queue
step_queue (pushes asc ascq) queue = push_unit_attention asc ascq queue
step_queue mounts queue = push_unit_attention 0x28 0x00 []
step_queue unmounts queue = []

unfoldable pub step_all : List AttentionStep → Queue → Queue
step_all [] queue = queue
step_all (step ∷ steps) queue = step_all steps (step_queue step queue)

abbrev on : Option CdbResponse → List AttentionStep → Queue → Queue
on (some answer) steps queue = queue
on none steps queue = step_all steps queue

unfoldable pub answer_alone : DriveCommand → Queue → Option CdbResponse × Queue
answer_alone r queue =
    let a = attention_answer r.form (step_all r.prepared queue) in (a.0, on a.0 r.handled a.1)

unfoldable pub serve_alone : List DriveCommand → Queue → List (Option CdbResponse)
serve_alone [] queue = []
serve_alone (r ∷ rs) queue = let a = answer_alone r queue in a.0 ∷ serve_alone rs a.1

-- Steps without a mount or an unmount.
unfoldable pub only_pushes : List AttentionStep → Bool
only_pushes [] = true
only_pushes (pushes asc ascq ∷ steps) = only_pushes steps
only_pushes (mounts ∷ steps) = false
only_pushes (unmounts ∷ steps) = false

-- Do the commands of the other initiators mount and unmount nothing?
unfoldable pub others_keep : Text → List (Option Text × DriveCommand) → Bool
others_keep key [] = true
others_keep key ((context, r) ∷ rs) =
    (is_nexus key context || (only_pushes r.prepared && only_pushes r.handled))
    && others_keep key rs

steps_pending :
    (steps : List AttentionStep) (s : AttentionState)
    → (take_steps steps s).pending_unit_attention ≡ step_all steps s.pending_unit_attention
unfolding take_steps take_step mount_attentions unmount_attentions step_all step_queue
steps_pending [] s = refl
steps_pending (pushes asc ascq ∷ steps) s = steps_pending steps (take_step (pushes asc ascq) s)
steps_pending (mounts ∷ steps) s = steps_pending steps (mount_attentions s)
steps_pending (unmounts ∷ steps) s = steps_pending steps (unmount_attentions s)

steps_nexus :
    (steps : List AttentionStep) (s : AttentionState)
    → only_pushes steps ≡ true
    → (take_steps steps s).nexus_unit_attention ≡ s.nexus_unit_attention
unfolding take_steps take_step only_pushes
steps_nexus [] s h = refl
steps_nexus (pushes asc ascq ∷ steps) s h = steps_nexus steps (take_step (pushes asc ascq) s) h
steps_nexus (mounts ∷ steps) s h = absurd (ground (arith, h))
steps_nexus (unmounts ∷ steps) s h = absurd (ground (arith, h))

go_on_pending :
    (a : Option CdbResponse) (steps : List AttentionStep) (s : AttentionState)
    → (go_on a steps s).pending_unit_attention ≡ on a steps s.pending_unit_attention
go_on_pending (some x) steps s = refl
go_on_pending none steps s = steps_pending steps s

go_on_nexus :
    (a : Option CdbResponse) (steps : List AttentionStep) (s : AttentionState)
    → only_pushes steps ≡ true
    → (go_on a steps s).nexus_unit_attention ≡ s.nexus_unit_attention
go_on_nexus (some x) steps s h = refl
go_on_nexus none steps s h = steps_nexus steps s h

inner_alone :
    (r : DriveCommand) (s : AttentionState)
    → ((dispatch_inner r s).0 ≡ (answer_alone r s.pending_unit_attention).0)
      × ((dispatch_inner r s).1.pending_unit_attention
          ≡ (answer_alone r s.pending_unit_attention).1)
unfolding dispatch_inner answer_alone
inner_alone r s =
    let ready = take_steps r.prepared s in
    let a = attention_answer r.form ready.pending_unit_attention in
    let same = steps_pending r.prepared s in
    (
      ap (λ q. (attention_answer r.form q).0) same,
      go_on_pending a.0 r.handled (record ready { pending_unit_attention = a.1 })
          ∙ ap (λ q. on (attention_answer r.form q).0 r.handled (attention_answer r.form q).1) same,
    )

inner_nexus :
    (r : DriveCommand) (s : AttentionState)
    → (only_pushes r.prepared && only_pushes r.handled) ≡ true
    → (dispatch_inner r s).1.nexus_unit_attention ≡ s.nexus_unit_attention
unfolding dispatch_inner
inner_nexus r s h =
    let ready = take_steps r.prepared s in
    let a = attention_answer r.form ready.pending_unit_attention in
    go_on_nexus a.0 r.handled (record ready { pending_unit_attention = a.1 }) (ground (arith, h))
    ∙ steps_nexus r.prepared s (ground (arith, h))

module _ (key initiator : Text) (r : DriveCommand) (s : AttentionState) where
  abbrev taken : AttentionState
  taken = (take_nexus_unit_attention initiator s).1

  abbrev inside : Option CdbResponse × AttentionState
  inside = dispatch_inner r taken

  abbrev restored : AttentionState
  restored =
      restore_nexus_unit_attention initiator (take_nexus_unit_attention initiator s).0 inside.1

  own_queue : keq key (trim initiator) ≡ true → taken.pending_unit_attention ≡ queue_of key s
  unfolding take_nexus_unit_attention queue_of
  own_queue h = let same = (keq_iff key (trim initiator)).0 h in rw same refl

  nexus_served :
      keq key (trim initiator) ≡ true
      → (inside.0 ≡ (answer_alone r (queue_of key s)).0)
        × (queue_of key restored ≡ (answer_alone r (queue_of key s)).1)
  nexus_served h =
      let served = inner_alone r taken in
      let kept : queue_of key restored ≡ inside.1.pending_unit_attention =
        unfold queue_of restore_nexus_unit_attention in
        rw
          (
            get-insert key (trim initiator) inside.1.pending_unit_attention
                inside.1.nexus_unit_attention,
            h,
          )
          refl in
      (
        served.0 ∙ ap (λ q. (answer_alone r q).0) (own_queue h),
        kept ∙ (served.1 ∙ ap (λ q. (answer_alone r q).1) (own_queue h)),
      )

  nexus_untouched :
      keq key (trim initiator) ≡ false
      → (only_pushes r.prepared && only_pushes r.handled) ≡ true
      → queue_of key restored ≡ queue_of key s
  nexus_untouched h quiet =
      let others : inside.1.nexus_unit_attention ≡ remove (trim initiator) s.nexus_unit_attention =
        unfold take_nexus_unit_attention in inner_nexus r taken quiet in
      let found : get key restored.nexus_unit_attention ≡ get key s.nexus_unit_attention =
        unfold restore_nexus_unit_attention in
        get-insert key (trim initiator) inside.1.pending_unit_attention
          inside.1.nexus_unit_attention
        ∙ rw (h, others)
            (ground (
              arith,
              h,
              get-remove key (trim initiator) s.nexus_unit_attention,
              text_keys.eq_of_cmp (trim initiator) key,
              text_keys.cmp_refl key,
            )) in
      unfold queue_of in ap queue_or_initial found

dispatched :
    (key : Text) (name : Option Text) (r : DriveCommand) (s : AttentionState)
    → is_key key name ≡ true
    → ((dispatch_as name r s).0 ≡ (answer_alone r (queue_of key s)).0)
      × (queue_of key (dispatch_as name r s).1 ≡ (answer_alone r (queue_of key s)).1)
dispatched key none r s h = ground (arith, h)
dispatched key (some initiator) r s h = nexus_served key initiator r s h

untouched :
    (key : Text) (name : Option Text) (r : DriveCommand) (s : AttentionState)
    → (is_key key name || (only_pushes r.prepared && only_pushes r.handled)) ≡ true
    → is_key key name ≡ false
    → queue_of key (dispatch_as name r s).1 ≡ queue_of key s
untouched key none r s quiet h =
    unfold queue_of in
    ap (λ m. queue_or_initial (get key m)) (inner_nexus r s (ground (arith, quiet)))
untouched key (some initiator) r s quiet h =
    nexus_untouched key initiator r s h (ground (arith, quiet, h))

-- One command of the session, of the nexus or not.
serve_session_step :
    (own : Bool) (r : DriveCommand) (rs : List DriveCommand) (a : Option CdbResponse)
    (answers : List (Option CdbResponse)) (before after : Queue)
    → (own ≡ true → (a ≡ (answer_alone r before).0) × (after ≡ (answer_alone r before).1))
    → (own ≡ false → after ≡ before)
    → answers ≡ serve_alone rs after
    → (if own then a ∷ answers else answers) ≡ serve_alone (if own then r ∷ rs else rs) before
unfolding serve_alone
serve_session_step true r rs a answers before after served kept h =
    let facts = served refl in rw (facts.0, h, facts.1) refl
serve_session_step false r rs a answers before after served kept h =
    h ∙ ap (serve_alone rs) (kept refl)

-- Whatever the other initiators send in between that mounts and unmounts nothing, the answers that
-- one gets are those of a queue that it has alone, on which only its own commands push attentions,
-- mount and unmount. It starts as the initiator's queue in the state or, if it has none there, as
-- the power-on's.
pub serve_session_alone :
    (key : Text) (rs : List (Option Text × DriveCommand)) (s : AttentionState)
    → others_keep key rs ≡ true
    → of_nexus key (serve_session rs s) ≡ serve_alone (of_nexus key rs) (queue_of key s)
unfolding of_nexus serve_session serve_alone is_nexus dispatch others_keep
serve_session_alone key [] s k = refl
serve_session_alone key ((context, r) ∷ rs) s k =
    serve_session_step (is_nexus key context) r (of_nexus key rs) (dispatch context r s).0
      (of_nexus key (serve_session rs (dispatch context r s).1)) (queue_of key s)
      (queue_of key (dispatch context r s).1) (dispatched key (named context) r s)
      (untouched key (named context) r s (ground (arith, k)))
      (serve_session_alone key rs (dispatch context r s).1 (ground (arith, k)))

-- REQUEST SENSE as often as the queue is long.
abbrev pub sensing : DriveCommand
sensing = record { prepared = []; form = request_sense; handled = [] }

unfoldable pub request_senses : Queue → List DriveCommand
request_senses [] = []
request_senses (attention ∷ queue) = sensing ∷ request_senses queue

reported_alone :
    (queue : Queue)
    → serve_alone (request_senses queue) queue
      ≡ map (λ attention. some (good (attention_sense attention))) queue
unfolding serve_alone answer_alone step_all request_senses attention_answer request_sense_response
    take_unit_attention
reported_alone [] = refl
reported_alone (attention ∷ queue) =
    ap (◌∷◌ (some (good (attention_sense attention)))) (reported_alone queue)

-- An initiator that sends REQUEST SENSE once for each attention of its queue is told each of them,
-- in the order of the queue, whatever the other initiators send in between that mounts and unmounts
-- nothing, if the synchronisation before its own commands finds nothing to mount or to unmount.
pub serve_session_reports :
    (key : Text) (rs : List (Option Text × DriveCommand)) (s : AttentionState)
    → others_keep key rs ≡ true
    → of_nexus key rs ≡ request_senses (queue_of key s)
    → of_nexus key (serve_session rs s)
      ≡ map (λ attention. some (good (attention_sense attention))) (queue_of key s)
serve_session_reports key rs s k h =
    serve_session_alone key rs s k
    ∙ (ap (λ own. serve_alone own (queue_of key s)) h ∙ reported_alone (queue_of key s))
