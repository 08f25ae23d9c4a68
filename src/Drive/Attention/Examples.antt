-- ===== src/Drive/Attention/Examples.antt =====
-- Sessions of two initiators: data-plane/src/iscsi/cdb_server.rs.
use mathlib.Core.List.{map}
use holo.Prelude.{trim, ◌≡◌, refl, true, Option, none, some, List, [], ◌∷◌}
use holo.Prelude.OrdMap.{Text, text_keys, get, insert, remove}
use holo.Wire.{good}
use holo.Drive.Attention.{
  AttentionState, DriveCommand, CommandForm, pushes, mounts, refused, test_unit_ready,
  request_sense, other, attention_sense, dispatch, dispatch_inner, take_step, take_steps,
  mount_attentions, take_nexus_unit_attention, restore_nexus_unit_attention, attention_answer,
  named,
}
use holo.Drive.Attention.Nexus.{
  serve_session, of_nexus, queue_of, serve_alone, is_nexus, request_senses, serve_session_alone,
  serve_session_reports, others_keep, only_pushes, sensing,
}

-- The code points of `a` and of ` b`.
abbrev first : Text
first = 97 ∷ []

abbrev second : Text
second = 32 ∷ 98 ∷ []

-- The first initiator has had its power-on and waits for two others; the second has no queue yet.
abbrev two_attentions : AttentionState
two_attentions = record {
  pending_unit_attention = (0x29, 0x00) ∷ [];
  nexus_unit_attention = (first, (0x28, 0x00) ∷ (0x2A, 0x01) ∷ []) ∷ [];
}

abbrev plain : CommandForm → DriveCommand
plain form = record { prepared = []; form = form; handled = [] }

-- The second initiator's command changes parameters, and the one without a name is refused.
abbrev interleaved : List (Option Text × DriveCommand)
interleaved =
    (some first, sensing)
    ∷ (
      some second,
      record {
        prepared = pushes 0x28 0x01 ∷ [];
        form = other 0x15;
        handled = pushes 0x2A 0x01 ∷ [];
      },
    )
    ∷ (none, plain (refused (good [])))
    ∷ (some second, plain (test_unit_ready true))
    ∷ (some first, sensing)
    ∷ []

others_keep_second : others_keep (98 ∷ []) interleaved ≡ true
unfolding others_keep only_pushes is_nexus named trim text_keys
others_keep_second = refl

alone_kept : others_keep first interleaved ≡ true
unfolding others_keep only_pushes is_nexus named trim text_keys
alone_kept = refl

serve_session_alone_example :
    of_nexus (98 ∷ []) (serve_session interleaved two_attentions)
    ≡ serve_alone (of_nexus (98 ∷ []) interleaved) (queue_of (98 ∷ []) two_attentions)
serve_session_alone_example =
    serve_session_alone (98 ∷ []) interleaved two_attentions others_keep_second

only_senses : of_nexus first interleaved ≡ request_senses (queue_of first two_attentions)
unfolding of_nexus is_nexus request_senses queue_of get text_keys named trim
only_senses = refl

serve_session_reports_example :
    of_nexus first (serve_session interleaved two_attentions)
    ≡ map (λ attention. some (good (attention_sense attention))) (queue_of first two_attentions)
serve_session_reports_example =
    serve_session_reports first interleaved two_attentions alone_kept only_senses

-- A mount by the second initiator makes the queue of the first the power-on's.
power_on_again :
    queue_of first
      (dispatch
        (some second)
        (record { prepared = []; form = request_sense; handled = [] })
        (take_step mounts two_attentions)).1
    ≡ (0x29, 0x00) ∷ []
unfolding queue_of dispatch dispatch_inner take_step take_steps mount_attentions
    take_nexus_unit_attention restore_nexus_unit_attention attention_answer get insert remove named
    trim text_keys
power_on_again = refl
