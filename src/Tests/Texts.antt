-- ===== src/Tests/Texts.antt =====
-- The theorems on actors, reasons and the control policy.
use aku_supervisor.Base.{◌≤◌, true, [], ◌∷◌, List, ok, err, ◌≡◌, ◌↔◌, refl}
use mathlib.Core.List.{reverse}
use aku_supervisor.Domain.Actor.{
  Actor, identified, serialize, deserialize, deserialize-serialize, serialize-deserialize,
}
use aku_supervisor.Domain.Authority.{IsAllowed, authorize_iff, apply_all, stop_hold_blocks}
use aku_supervisor.Domain.Control.{
  LifecycleAction, ControlPolicy, default, authorize, is_launch, apply_user_action,
  operator_hold_stopped,
}
use aku_supervisor.Domain.Reason.{Reason, new, begins_visible, byte_len, max_bytes, trim}
use aku_supervisor.Domain.Reasons.{new-ok}

authorize_iff_example :
    (authorize default Actor.codex LifecycleAction.restart ≡ ok tt)
    ↔ (is_launch LifecycleAction.restart ≡ true → IsAllowed default Actor.codex)
authorize_iff_example = authorize_iff default Actor.codex LifecycleAction.restart

abbrev requests : List (Actor × LifecycleAction)
requests = (Actor.agent, LifecycleAction.start) ∷ (Actor.recovery, LifecycleAction.stop) ∷ []

abbrev held : ControlPolicy
held = apply_all (apply_user_action default Actor.user_ui LifecycleAction.stop) requests

stop_hold_blocks_example :
    (authorize held Actor.codex LifecycleAction.start ≡ err operator_hold_stopped)
    × (authorize held Actor.user_ui LifecycleAction.start ≡ ok tt)
stop_hold_blocks_example =
    stop_hold_blocks default Actor.user_ui Actor.codex LifecycleAction.start requests refl
      (refl, (refl, tt)) refl refl

deserialize-serialize_example : deserialize (serialize Actor.codex) ≡ ok Actor.codex
deserialize-serialize_example = deserialize-serialize Actor.codex

serialize-deserialize_example : serialize Actor.codex ≡ identified "agent" "codex"
unfolding deserialize
serialize-deserialize_example = serialize-deserialize "agent" "codex" Actor.codex refl

abbrev text : Reason
text = record { text = 111 ∷ 107 ∷ [] }

new-ok_example :
    (begins_visible text.text ≡ true)
    × (begins_visible (reverse text.text) ≡ true)
    × (byte_len text.text ≤ max_bytes)
    × (new text.text ≡ ok text)
unfolding new trim byte_len
new-ok_example = new-ok (32 ∷ 111 ∷ 107 ∷ 10 ∷ []) text refl
